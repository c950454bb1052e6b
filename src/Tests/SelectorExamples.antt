-- ===== src/Tests/SelectorExamples.antt =====
-- Examples on selectors: a page with a paragraph, and a table in it with one cell.
use dph.Base.{◌≡◌, ◌↔◌, refl, Bool, true, false, List, [], ◌∷◌, In}
use dph.Base.Number.{pos}
use dph.Base.Text.{Bytes, codes}
use dph.Selector.{
  Kind, page, paragraph, table, row, cell, Item, item, Items, nil, cons, Step, seg_type, matches,
  apply,
}
use dph.Selector.Answers.{Below, Selects, In-apply}

abbrev node : Kind → Items → Item
node kind cs =
    item
      (record {
        kind = kind;
        seg = record { kind = seg_type kind; index = pos 0; has_index = true };
        path = [];
        url = [];
        body = [];
        src = [];
        alt = [];
        href = [];
      })
      cs

abbrev a_cell : Item
a_cell = node cell nil

abbrev a_page : Item
a_page =
    node page
      (cons (node paragraph nil) (cons (node table (cons (node row (cons a_cell nil)) nil)) nil))

abbrev table_step : Step
table_step = record {
  seg = record { kind = codes "table"; index = pos 0; has_index = true };
  child = false;
}

abbrev cell_step : Bool → Step
cell_step child = record {
  seg = record { kind = codes "td"; index = pos 0; has_index = false };
  child = child;
}

below_test : apply (table_step ∷ cell_step false ∷ []) a_page ≡ a_cell ∷ []
unfolding apply dph.Selector.steps_all dph.Selector.step_all dph.Selector.walk dph.Selector.matching
    matches seg_type dph.Base.Text.str_eq
below_test = refl

child_test : apply (table_step ∷ cell_step true ∷ []) a_page ≡ []
unfolding apply dph.Selector.steps_all dph.Selector.step_all dph.Selector.walk dph.Selector.matching
    matches seg_type dph.Base.Text.str_eq
child_test = refl

In-apply_example : In a_cell (apply (table_step ∷ cell_step false ∷ []) a_page) ↔ (
    (a : Item) × Below a_page a
    × (matches table_step.seg a ≡ true)
    × Selects (cell_step false ∷ []) a a_cell)
In-apply_example = In-apply table_step (cell_step false ∷ []) a_page a_cell
