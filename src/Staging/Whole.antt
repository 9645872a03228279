-- ===== src/Staging/Whole.antt =====
-- Entries whose destinations follow one another make a single run.
use gfd.Base.{
  ℕ, ◌+◌, ◌-◌, ◌%◌, sym, ◌*◌, ◌^◌, ◌<◌, ◌≤◌, ◌≡◌, refl, ap, ◌∙◌, true, arith, ◌==◌, inl, inr, List,
  [], ◌∷◌, length,
}
use gfd.Queue.{add64, mul64}
use gfd.Driver.{SgEntry}
use gfd.Memory.{Memory, copied_all}
use gfd.Coalesce.{sum_bytes, contiguous_after, follows}
use gfd.Coalesce.Sound.{InRange, AllInRange, and_entry}
use gfd.Staging.{dst_after, src_after, dst_contiguous, gathered, run_of, merge_runs}
use gfd.Staging.Runs.{Within, merge_runs-copied}

-- Where the last of the entries ends.
end_of : SgEntry → List SgEntry → ℕ
end_of prev [] = prev.dst + prev.size
end_of prev (e ∷ es) = end_of e es

dst_after-step :
    (prev e : SgEntry) (es : List SgEntry)
    → InRange prev
    → dst_after prev (e ∷ es) ≡ true
    → (e.dst ≡ prev.dst + prev.size) × (dst_after e es ≡ true)
unfolding dst_after
dst_after-step prev e es r h = (ground (arith, h, r.dst_ends), ground (arith, h))

end_of-lt :
    (prev : SgEntry) (es : List SgEntry)
    → AllInRange (prev ∷ es)
    → dst_after prev es ≡ true
    → (prev.dst + prev.size ≤ end_of prev es) × (end_of prev es < 2 ^ 64)
unfolding end_of
end_of-lt prev [] (and_entry r rs) h = (omega arith, r.dst_ends)
end_of-lt prev (e ∷ es) (and_entry r rs) h =
    let s = dst_after-step prev e es r h in
    let ih = end_of-lt e es rs s.1 in (omega (arith, s.0, ih.0), ih.1)

contiguous-Within :
    (prev : SgEntry) (es : List SgEntry)
    → AllInRange (prev ∷ es)
    → dst_after prev es ≡ true
    → Within prev.dst (end_of prev es) (prev ∷ es)
unfolding end_of
contiguous-Within prev [] all h f (inl same) = rw same (omega arith, omega arith)
contiguous-Within prev [] all h f (inr m) = absurd m
contiguous-Within prev (e ∷ es) (and_entry r rs) h f (inl same) =
    let s = dst_after-step prev e es r h in
    let ih = end_of-lt e es rs s.1 in rw same (omega arith, omega (arith, s.0, ih.0))
contiguous-Within prev (e ∷ es) (and_entry r rs) h f (inr m) =
    let s = dst_after-step prev e es r h in
    let ih = contiguous-Within e es rs s.1 f m in (omega (arith, s.0, ih.0), ih.1)

-- The sum of the sizes does not wrap around.
start-sum_bytes :
    (start size : ℕ) (prev : SgEntry) (es : List SgEntry)
    → AllInRange (prev ∷ es)
    → dst_after prev es ≡ true
    → start + size ≡ prev.dst + prev.size
    → start + sum_bytes size es ≡ end_of prev es
unfolding sum_bytes end_of
start-sum_bytes start size prev [] all h e = e
start-sum_bytes start size prev (f ∷ es) (and_entry r rs) h e =
    let s = dst_after-step prev f es r h in
    let next = end_of-lt f es rs s.1 in
    let sum : add64 size f.size ≡ size + f.size = omega (arith, s.0, next.0, next.1) in
    rw sum (start-sum_bytes start (size + f.size) f es rs s.1 (omega (arith, s.0)))

merge_runs-whole :
    (cur_buf min_dst start size : ℕ) (prev : SgEntry) (es : List SgEntry)
    → AllInRange (prev ∷ es)
    → dst_after prev es ≡ true
    → start + size ≡ prev.dst + prev.size
    → merge_runs cur_buf min_dst start size es
      ≡ run_of cur_buf min_dst start (sum_bytes size es) ∷ []
unfolding merge_runs sum_bytes
merge_runs-whole cur_buf min_dst start size prev [] all h e = refl
merge_runs-whole cur_buf min_dst start size prev (f ∷ es) (and_entry r rs) h e =
    let s = dst_after-step prev f es r h in
    let next = end_of-lt f es rs s.1 in
    let sum : add64 size f.size ≡ size + f.size = omega (arith, s.0, next.0, next.1) in
    let joins : (f.dst == add64 start size) ≡ true = ground (arith, s.0, e, r.dst_ends) in
    rw joins (
      merge_runs-whole cur_buf min_dst start (add64 size f.size) f es rs s.1
        (omega (arith, s.0, sum)))

-- One copy out of the filled buffer leaves the memory that copying the entries leaves.
pub whole-copied :
    (host device : Memory) (num_workers cur_buf size : ℕ) (e : SgEntry) (es : List SgEntry)
    → AllInRange (e ∷ es)
    → dst_after e es ≡ true
    → sum_bytes e.size es ≤ size
    → cur_buf + size < 2 ^ 64
    → copied_all
        (gathered host num_workers cur_buf size (e ∷ es) e.dst)
        (record { dst = e.dst; src = cur_buf; size = sum_bytes e.size es } ∷ [])
        device
      ≡ copied_all host (e ∷ es) device
unfolding run_of
whole-copied host device num_workers cur_buf size e es all h fits room =
    let ends = end_of-lt e es all h in
    let total = start-sum_bytes e.dst e.size e es all h refl in
    let inside = contiguous-Within e es all h in
    let one = merge_runs-whole cur_buf e.dst e.dst e.size e es all h refl in
    let source : add64 cur_buf ((e.dst + 2 ^ 64 - e.dst) % 2 ^ 64) ≡ cur_buf = omega arith in
    ap
      (λ s.
        copied_all (gathered host num_workers cur_buf size (e ∷ es) e.dst)
          (record { dst = e.dst; src = s; size = sum_bytes e.size es } ∷ []) device)
      (sym source)
    ∙ ap (λ runs. copied_all (gathered host num_workers cur_buf size (e ∷ es) e.dst) runs device)
        (sym one)
    ∙ merge_runs-copied host num_workers cur_buf size e.dst (end_of e es) (e ∷ es)
        (omega (arith, total)) room (ends.1) inside e es device inside (λ p. refl)

-- With entries of one size, each follows the one before it, and the run has `count * entry_size` bytes.
dst_contiguous-dst_after :
    (expected_dst entry_size : ℕ) (prev : SgEntry) (es : List SgEntry)
    → expected_dst ≡ add64 prev.dst prev.size
    → entry_size ≡ prev.size
    → dst_contiguous expected_dst entry_size es ≡ true
    → dst_after prev es ≡ true
unfolding dst_contiguous dst_after
dst_contiguous-dst_after expected_dst entry_size prev [] d s h = refl
dst_contiguous-dst_after expected_dst entry_size prev (e ∷ es) d s h =
    let here : (e.dst == add64 prev.dst prev.size) ≡ true = ground (arith, d, h) in
    let at : add64 expected_dst entry_size ≡ add64 e.dst e.size = ground (arith, h) in
    let same : entry_size ≡ e.size = ground (arith, h) in
    let later : dst_contiguous (add64 expected_dst entry_size) entry_size es ≡ true =
      ground (arith, h) in
    rw here (dst_contiguous-dst_after (add64 expected_dst entry_size) entry_size e es at same later)

dst_contiguous-end :
    (expected_dst entry_size : ℕ) (prev : SgEntry) (es : List SgEntry)
    → AllInRange (prev ∷ es)
    → expected_dst ≡ prev.dst + prev.size
    → entry_size ≡ prev.size
    → dst_contiguous expected_dst entry_size es ≡ true
    → end_of prev es ≡ prev.dst + length (prev ∷ es) * entry_size
unfolding dst_contiguous end_of
dst_contiguous-end expected_dst entry_size prev [] all d s h = omega (arith, s)
dst_contiguous-end expected_dst entry_size prev (e ∷ es) (and_entry r (and_entry q rs)) d s h =
    let here : e.dst ≡ expected_dst = ground (arith, h) in
    let same : entry_size ≡ e.size = ground (arith, h) in
    let sum : add64 expected_dst entry_size ≡ e.dst + e.size =
      omega (arith, here, same, q.dst_ends) in
    let later : dst_contiguous (add64 expected_dst entry_size) entry_size es ≡ true =
      ground (arith, h) in
    let ih =
      dst_contiguous-end (add64 expected_dst entry_size) entry_size e es (and_entry q rs) sum same
        later in
    ih ∙ grind (arith, here, same, d, s)

pub dst_contiguous-sum_bytes :
    (e : SgEntry) (es : List SgEntry)
    → AllInRange (e ∷ es)
    → dst_contiguous (add64 e.dst e.size) e.size es ≡ true
    → (dst_after e es ≡ true) × (mul64 (length (e ∷ es)) e.size ≡ sum_bytes e.size es)
dst_contiguous-sum_bytes e es (and_entry r rs) h =
    let all = and_entry r rs in
    let sum : add64 e.dst e.size ≡ e.dst + e.size = omega (arith, r.dst_ends) in
    let after = dst_contiguous-dst_after (add64 e.dst e.size) e.size e es refl refl h in
    let total = start-sum_bytes e.dst e.size e es all after refl in
    let ends = end_of-lt e es all after in
    let whole = dst_contiguous-end (add64 e.dst e.size) e.size e es all sum refl h in
    (after, omega (arith, whole, total, ends.1))

-- Both tests together say what the test for entries that lie side by side says.
pub both_after :
    (prev : SgEntry) (es : List SgEntry)
    → dst_after prev es ≡ true
    → src_after prev es ≡ true
    → contiguous_after prev es ≡ true
unfolding dst_after src_after contiguous_after follows
both_after prev [] d s = refl
both_after prev (e ∷ es) d s =
    let later = both_after e es (ground (arith, d)) (ground (arith, s)) in
    ground (arith, d, s, later)
