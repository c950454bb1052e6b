-- ===== src/Runner/Ends.antt =====
-- The number of steps of a run of internal/runner/pipeline.go.
use dph.Base.{
  ℕ, suc, ◌+◌, ◌*◌, ◌≤◌, ◌<◌, ◌≡◌, ap, ◌∙◌, Bool, true, false, ◌⊎◌, inl, inr, Option, none, some,
  List, [], ◌∷◌, length, length-append, arith,
}
use dph.Base.Text.{Bytes}
use dph.Runner.{Item, count_ok}
use dph.Runner.Pipeline.{
  Pipe, Config, StageError, item_of, decode, run_transform, run_load, transformed, decoded, taken,
  source_ended, loaded_with, Move, feed, end_source, stop_source, take_item, send, end_worker,
  stop_worker, stop_holder, shut_out, load_item, end_load, stop_load, interrupt, Reaches, start,
  move,
}
use dph.Runner.Steady.{length-middle}

-- What is still to do: a bound on the steps that are left.
abbrev pub flag : Bool → ℕ
flag true = 0
flag false = 1

abbrev pub left_to_do : Pipe → ℕ
left_to_do p =
    4 * length p.todo
    + 3 * length p.in_queue
    + p.idle
    + 3 * length p.held
    + length p.out_queue
    + flag p.in_closed
    + flag p.out_closed
    + flag p.load_done
    + flag p.is_cancelled

flag_le : (b : Bool) → flag b ≤ 1
flag_le true = omega arith
flag_le false = omega arith

module _ (cfg : Config) where
  taken-less :
      (it : Item) (rest : List Item) (idle : ℕ) (p : Pipe)
      → p.in_queue ≡ it ∷ rest
      → p.idle ≡ suc idle
      → left_to_do (taken cfg it rest idle p) < left_to_do p
  taken-less it rest idle p q i = by_decode (decode cfg it)
    where
      by_transform :
          (t : ℕ ⊎ Bytes)
          → left_to_do (
              transformed cfg it t
                (record p { in_queue = rest; idle = idle; stats = count_ok it.kind p.stats }))
            < left_to_do p
      by_transform (inl e) = omega (arith, ap length q, i)
      by_transform (inr out) = omega (arith, ap length q, i)

      by_decode :
          (d : Option StageError)
          → left_to_do (decoded cfg it d (record p { in_queue = rest; idle = idle })) < left_to_do p
      by_decode (some e) = omega (arith, ap length q, i)
      by_decode none = by_transform (run_transform cfg cfg.transform it)

  loaded-less :
      (it : Item) (rest : List Item) (o : Option ℕ) (p : Pipe)
      → p.out_queue ≡ it ∷ rest
      → left_to_do (loaded_with cfg it rest o p) < left_to_do p
  loaded-less it rest none p q = omega (arith, ap length q)
  loaded-less it rest (some e) p q = omega (arith, ap length q)

  ended-less :
      (o : Option ℕ) (p : Pipe)
      → p.in_closed ≡ false
      → left_to_do (source_ended cfg o p) < left_to_do p
  ended-less none p c = omega (arith, ap flag c)
  ended-less (some e) p c = omega (arith, ap flag c)

  move-less : {p q : Pipe} → Move cfg p q → left_to_do q < left_to_do p
  move-less {p = p} (feed b bs t c l) =
      omega (arith, ap length t, length-append p.in_queue (item_of b ∷ []))
  move-less {p = p} (end_source t c) = ended-less cfg.source_err p c
  move-less {p = p} (stop_source x c) = omega (arith, ap flag c)
  move-less {p = p} (take_item it rest idle q i) = taken-less it rest idle p q i
  move-less {p = p} (send before it after q l) =
      omega
        (arith, ap length q ∙ length-middle before it after, length-append p.out_queue (it ∷ []))
  move-less {p = p} (end_worker idle q c i) = omega (arith, i)
  move-less {p = p} (stop_worker idle x i) = omega (arith, i)
  move-less {p = p} (stop_holder before it after x q) =
      omega (arith, ap length q ∙ length-middle before it after)
  move-less {p = p} (shut_out g c) = omega (arith, ap flag c)
  move-less {p = p} (load_item it rest d q) = loaded-less it rest (run_load cfg cfg.on_load it) p q
  move-less {p = p} (end_load d q c) = omega (arith, ap flag d)
  move-less {p = p} (stop_load d x) = omega (arith, ap flag d)

  -- A run has at most four steps for each blob, one for each worker and four more.
  pub run_ends :
      {n : ℕ} {p : Pipe}
      → Reaches cfg n p
      → n + left_to_do p ≤ 4 * length cfg.blobs + cfg.workers + 4
  run_ends start = omega arith
  run_ends (move r m) = omega (arith, run_ends r, move-less m)
  run_ends (interrupt {p = p} r x) = omega (arith, run_ends r, ap flag x)
