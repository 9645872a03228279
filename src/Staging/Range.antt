-- ===== src/Staging/Range.antt =====
-- The range of the destinations of some entries, as the loops over them find it.
use gfd.Base.{ℕ, ◌+◌, ◌^◌, ◌<◌, ◌≤◌, ◌≡◌, arith, ltb, if◌then◌else◌, inl, inr, List, [], ◌∷◌}
use gfd.Queue.{add64, sub64}
use gfd.Driver.{SgEntry}
use gfd.Memory.Cover.{In}
use gfd.Coalesce.Sound.{AllInRange, no_entry, and_entry}
use gfd.Staging.{least_dst, greatest_end}
use gfd.Staging.Runs.{Within}

least_dst-le :
    (min_dst : ℕ) (es : List SgEntry)
    → (least_dst min_dst es ≤ min_dst) × ((e : SgEntry) → In e es → least_dst min_dst es ≤ e.dst)
unfolding least_dst
least_dst-le min_dst [] = (omega arith, λ e m. absurd m)
least_dst-le min_dst (x ∷ xs) =
    let next = if ltb x.dst min_dst then x.dst else min_dst in
    let ih = least_dst-le next xs in
    let low : (next ≤ min_dst) × (next ≤ x.dst) = (ground arith, ground arith) in
    (
      omega (arith, ih.0, low.0),
      λ e m. elim m [ inl same ↦ rw same (omega (arith, ih.0, low.1)) | inr later ↦ ih.1 e later ],
    )

greatest_end-le :
    (max_end : ℕ) (es : List SgEntry)
    → AllInRange es
    → max_end < 2 ^ 64
    → (max_end ≤ greatest_end max_end es)
      × ((e : SgEntry) → In e es → e.dst + e.size ≤ greatest_end max_end es)
      × (greatest_end max_end es < 2 ^ 64)
unfolding greatest_end
greatest_end-le max_end [] no_entry h = (omega arith, λ e m. absurd m, h)
greatest_end-le max_end (x ∷ xs) (and_entry r rs) h =
    let end = add64 x.dst x.size in
    let next = if ltb max_end end then end else max_end in
    let high : (max_end ≤ next) × (end ≤ next) × (next < 2 ^ 64) =
      (ground arith, ground arith, ground (arith, h)) in
    let sum : end ≡ x.dst + x.size = omega (arith, r.dst_ends) in
    let ih = greatest_end-le next xs rs high.2 in
    (
      omega (arith, ih.0, high.0),
      λ e m. elim m [
        | inl same ↦ rw same (omega (arith, ih.0, high.1, sum))
        | inr later ↦ ih.1 e later
      ],
      ih.2,
    )

-- All entries lie in the range, and its size does not wrap around.
pub range-Within :
    (c : SgEntry) (cs : List SgEntry)
    → AllInRange (c ∷ cs)
    → let lo = least_dst c.dst cs in
      let hi = greatest_end (add64 c.dst c.size) cs in
      Within lo hi (c ∷ cs) × (hi < 2 ^ 64) × (hi ≡ lo + sub64 hi lo)
range-Within c cs (and_entry r rs) =
    let low = least_dst-le c.dst cs in
    let sum : add64 c.dst c.size ≡ c.dst + c.size = omega (arith, r.dst_ends) in
    let high = greatest_end-le (add64 c.dst c.size) cs rs (omega arith) in
    let lo = least_dst c.dst cs in
    let hi = greatest_end (add64 c.dst c.size) cs in
    let order : (lo ≤ hi) × (hi < 2 ^ 64) = (omega (arith, low.0, high.0, sum), high.2) in
    (
      λ e m. elim m [
        | inl same ↦ rw same (low.0, omega (arith, high.0, sum))
        | inr later ↦ (low.1 e later, high.1 e later)
      ],
      high.2,
      omega (arith, order.0, order.1),
    )
