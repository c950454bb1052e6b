-- ===== src/Selector.antt =====
-- The resolution of a selector on a tree of items: Apply of internal/selector/selector.go, and the
-- items of internal/items/items.go.
pub mod Answers
use dph.Base.{◌≡◌, Bool, true, false, ◌&&◌, not, List, [], ◌∷◌, ◌++◌, if◌then◌else◌, ◌⊎◌, ◌==◌}
use dph.Base.Text.{Bytes, codes, str_eq}
use dph.Base.Number.{ℤ, pos, negsuc}
use dph.Address.{Segment}

-- `Kind`; the last one stands for any other number.
pub data Kind : Type 0 where
  page heading paragraph table row cell image link other : Kind

-- `segType`.
unfoldable pub seg_type : Kind → Bytes
seg_type page = codes "body"
seg_type heading = codes "heading"
seg_type paragraph = codes "p"
seg_type table = codes "table"
seg_type row = codes "tr"
seg_type cell = codes "td"
seg_type image = codes "img"
seg_type link = codes "a"
seg_type other = codes "node"

-- The fields of `Item` but its children.
pub record Fields : Type 0 where
  pub kind : Kind
  pub seg : Segment
  pub path : List Segment
  pub url : Bytes
  pub body : Bytes
  pub src : Bytes
  pub alt : Bytes
  pub href : Bytes

-- `Item` and its `Children`.
mutual
  pub data Item : Type 0 where
    item : Fields → Items → Item

  pub data Items : Type 0 where
    nil : Items
    cons : Item → Items → Items

-- `step`.
pub record Step : Type 0 where
  pub seg : Segment
  pub child : Bool

abbrev pub int_eq : ℤ → ℤ → Bool
int_eq (pos m) (pos n) = m == n
int_eq (pos m) (negsuc n) = false
int_eq (negsuc m) (pos n) = false
int_eq (negsuc m) (negsuc n) = m == n

-- `matches`.
unfoldable pub matches : Segment → Item → Bool
matches seg (item it cs) =
    if not (str_eq (seg_type it.kind) seg.kind)
    then false
    else if seg.has_index
    then it.seg.has_index && int_eq it.seg.index seg.index
    else true

-- The loop of `childMatch`.
unfoldable pub matching : Segment → Items → List Item
matching seg nil = []
matching seg (cons c cs) = let rest = matching seg cs in if matches seg c then c ∷ rest else rest

-- `childMatch`.
abbrev pub child_match : Segment → Item → List Item
child_match seg (item it cs) = matching seg cs

-- `descendantMatch` and the loop of its `walk`.
unfoldable mutual
  pub descendant_match : Segment → Item → List Item
  descendant_match seg (item it cs) = walk seg cs

  pub walk : Segment → Items → List Item
  walk seg nil = []
  walk seg (cons c cs) =
      let below = descendant_match seg c in
      let rest = walk seg cs in if matches seg c then c ∷ (below ++ rest) else below ++ rest

-- One step from one item.
abbrev pub step_from : Step → Item → List Item
step_from st it = if st.child then child_match st.seg it else descendant_match st.seg it

-- The loop over the items reached so far.
unfoldable pub step_all : Step → List Item → List Item
step_all st [] = []
step_all st (it ∷ current) = step_from st it ++ step_all st current

-- The loop over the steps.
unfoldable pub steps_all : List Step → List Item → List Item
steps_all [] current = current
steps_all (st ∷ steps) current = steps_all steps (step_all st current)

-- `Apply`.
unfoldable pub apply : List Step → Item → List Item
apply [] root = []
apply (st ∷ steps) root = steps_all steps (descendant_match st.seg root)
