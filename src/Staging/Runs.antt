-- ===== src/Staging/Runs.antt =====
-- The runs that are copied from a staging buffer leave the memory that copying the gathered entries leaves.
use gfd.Base.{
  ℕ, ◌+◌, ◌-◌, ◌^◌, ◌<◌, ◌≤◌, ◌≡◌, refl, sym, ap, fun_ext, ◌∙◌, true, false, arith, ltb, leb, ◌==◌,
  ◌&&◌, ◌||◌, inl, inr, List, [], ◌∷◌, Bool-cases,
}
use gfd.Queue.{add64, sub64}
use gfd.Driver.{SgEntry}
use gfd.Memory.{Memory, copied, copied_all}
use gfd.Memory.Cover.{covers, covered, In, copied_all-hit, copied_all-miss, copied_all-device}
use gfd.Gather.{staged, gather_entries}
use gfd.Gather.Parts.{parallel_gather-in_order}
use gfd.Staging.{gathered, run_of, merge_runs}

-- The destinations of all entries lie from `lo` up to `hi`.
abbrev pub Within : ℕ → ℕ → List SgEntry → Type 0
Within lo hi es = (e : SgEntry) → In e es → (lo ≤ e.dst) × (e.dst + e.size ≤ hi)

pub Within-tail :
    (lo hi : ℕ) (e : SgEntry) (es : List SgEntry) → Within lo hi (e ∷ es) → Within lo hi es
Within-tail lo hi e es w f m = w f (inr m)

staged-copied :
    (host : Memory) (min_dst : ℕ) (e : SgEntry) (staging device : Memory) (p : ℕ)
    → min_dst ≤ e.dst
    → e.dst + e.size < 2 ^ 64
    → min_dst ≤ p
    → staging (p - min_dst) ≡ device p
    → copied host (staged min_dst e) staging (p - min_dst) ≡ copied host e device p
unfolding copied
staged-copied host min_dst e staging device p lo hi above same =
    let at : sub64 e.dst min_dst ≡ e.dst - min_dst = omega arith in
    rw at (elim (Bool-cases (leb e.dst p && ltb p (e.dst + e.size))) [
      | inl hit ↦
          let q : (leb (e.dst - min_dst) (p - min_dst)
                && ltb (p - min_dst) (e.dst - min_dst + e.size))
              ≡ true =
            ground (arith, hit) in
          let d : p - min_dst - (e.dst - min_dst) ≡ p - e.dst = ground (arith, hit) in
          rw (q, hit, d) refl
      | inr miss ↦
          let q : (leb (e.dst - min_dst) (p - min_dst)
                && ltb (p - min_dst) (e.dst - min_dst + e.size))
              ≡ false =
            ground (arith, miss) in
          rw (q, miss) same
    ])

-- The gather leaves at a distance from `min_dst` what copying the entries leaves at the destination.
gather_entries-at :
    (host : Memory) (min_dst hi : ℕ) (es : List SgEntry) (staging device : Memory) (p : ℕ)
    → Within min_dst hi es
    → hi < 2 ^ 64
    → min_dst ≤ p
    → staging (p - min_dst) ≡ device p
    → gather_entries host min_dst es staging (p - min_dst) ≡ copied_all host es device p
unfolding gather_entries copied_all
gather_entries-at host min_dst hi [] staging device p w top above same = same
gather_entries-at host min_dst hi (e ∷ es) staging device p w top above same =
    let b = w e (inl refl) in
    gather_entries-at host min_dst hi es (copied host (staged min_dst e) staging)
      (copied host e device) p (Within-tail min_dst hi e es w) top above
      (staged-copied host min_dst e staging device p b.0 (omega arith) above same)

module _ (cur_buf min_dst hi : ℕ) (top : hi < 2 ^ 64) where
  covers-join :
      (start size more p : ℕ) (e : SgEntry)
      → e.dst ≡ start + size
      → e.size ≡ more
      → covers (run_of cur_buf min_dst start (size + more)) p
        ≡ (covers (run_of cur_buf min_dst start size) p || covers e p)
  unfolding covers run_of
  covers-join start size more p e d s = ground (arith, d, s)

  -- The runs write where the entries do.
  merge_runs-covered :
      (start size : ℕ) (es : List SgEntry) (p : ℕ)
      → start + size ≤ hi
      → Within min_dst hi es
      → covered (merge_runs cur_buf min_dst start size es) p
        ≡ (covers (run_of cur_buf min_dst start size) p || covered es p)
  unfolding merge_runs covered
  merge_runs-covered start size [] p h w = refl
  merge_runs-covered start size (e ∷ es) p h w =
      let b = w e (inl refl) in
      let tail = Within-tail min_dst hi e es w in
      elim (Bool-cases (e.dst == add64 start size)) [
        | inl merge ↦
            let next : e.dst ≡ start + size = ground (arith, merge) in
            let sum : add64 size e.size ≡ size + e.size = omega arith in
            let joined = covers-join start size e.size p e next refl in
            let ih = merge_runs-covered start (size + e.size) es p (omega arith) tail in
            rw (merge, sum) (ih ∙ ground (arith, joined))
        | inr apart ↦
            let ih = merge_runs-covered e.dst e.size es p b.1 tail in
            let same : covers (run_of cur_buf min_dst e.dst e.size) p ≡ covers e p =
              unfold covers run_of in refl in
            rw apart (ground (arith, ih, same))
      ]

  -- Each run reads the buffer at the distance of its destination from `min_dst`.
  merge_runs-src :
      (start size : ℕ) (es : List SgEntry) (r : SgEntry)
      → min_dst ≤ start
      → start ≤ hi
      → Within min_dst hi es
      → In r (merge_runs cur_buf min_dst start size es)
      → (r.src ≡ add64 cur_buf (r.dst - min_dst)) × (min_dst ≤ r.dst)
  unfolding merge_runs run_of
  merge_runs-src start size [] r lo le w (inl same) = rw same (omega arith)
  merge_runs-src start size [] r lo le w (inr m) = absurd m
  merge_runs-src start size (e ∷ es) r lo le w m =
      let b = w e (inl refl) in
      let tail = Within-tail min_dst hi e es w in
      elim (Bool-cases (e.dst == add64 start size)) [
        | inl merge ↦ merge_runs-src start (add64 size e.size) es r lo le tail (rw merge at m)
        | inr apart ↦
            let found : In r
                (run_of cur_buf min_dst start size ∷ merge_runs cur_buf min_dst e.dst e.size es) =
              rw apart at m in
            elim found [
              | inl same ↦ rw same (omega arith)
              | inr later ↦ merge_runs-src e.dst e.size es r b.0 (omega arith) tail later
            ]
      ]

module _ (host : Memory) (num_workers cur_buf size lo hi : ℕ) (es : List SgEntry)
    (fits : hi ≤ lo + size) (room : cur_buf + size < 2 ^ 64) (top : hi < 2 ^ 64)
    (inside : Within lo hi es) where
  abbrev filled : Memory
  filled = gathered host num_workers cur_buf size es lo

  -- The buffer holds what the entries leave, at the distance from `lo`.
  filled-at :
      (device : Memory) (p : ℕ)
      → covered es p ≡ true
      → lo ≤ p
      → p < hi
      → filled (cur_buf + (p - lo)) ≡ copied_all host es device p
  unfolding gathered
  filled-at device p hit above below =
      let in_buffer : (leb cur_buf (cur_buf + (p - lo))
            && ltb (cur_buf + (p - lo)) (cur_buf + size))
          ≡ true =
        ground (arith, fits, above, below) in
      let back : cur_buf + (p - lo) - cur_buf ≡ p - lo = omega arith in
      let old = λ (q : ℕ). host (cur_buf + q) in
      rw (in_buffer, back)
        (ap (λ (m : Memory). m (p - lo)) (parallel_gather-in_order host num_workers es lo old)
          ∙ gather_entries-at host lo hi es old (λ q. old (q - lo)) p inside top above refl
          ∙ copied_all-device host es (λ q. old (q - lo)) device p hit)

  run_place :
      (e r : SgEntry) (p : ℕ)
      → (lo ≤ e.dst) × (e.dst + e.size ≤ hi)
      → covers e p ≡ true
      → covers r p ≡ true
      → (r.src ≡ add64 cur_buf (r.dst - lo)) × (lo ≤ r.dst)
      → (r.src + (p - r.dst) ≡ cur_buf + (p - lo)) × (lo ≤ p) × (p < hi)
  unfolding covers
  run_place e r p b c d s =
      let ends : (e.dst ≤ p) × (p < e.dst + e.size) = (ground (arith, c), ground (arith, c)) in
      let starts : r.dst ≤ p = ground (arith, d) in
      (omega (arith, fits, room, s.0, s.1), omega arith, omega arith)

  covered-first :
      (first : SgEntry) (others : List SgEntry) (p : ℕ)
      → (covers (run_of cur_buf lo first.dst first.size) p || covered others p)
        ≡ covered (first ∷ others) p
  unfolding covers run_of covered
  covered-first first others p = refl

  -- Copying the runs of the entries, which may stand in another order, out of the filled buffer leaves
  -- the memory that copying the entries leaves.
  pub merge_runs-copied :
      (first : SgEntry) (others : List SgEntry) (device : Memory)
      → Within lo hi (first ∷ others)
      → ((p : ℕ) → covered (first ∷ others) p ≡ covered es p)
      → copied_all filled (merge_runs cur_buf lo first.dst first.size others) device
        ≡ copied_all host es device
  merge_runs-copied first others device w same = fun_ext λ p.
      let runs = merge_runs cur_buf lo first.dst first.size others in
      let b = w first (inl refl) in
      let tail = Within-tail lo hi first others w in
      let writes : covered runs p ≡ covered es p =
        merge_runs-covered cur_buf lo hi top first.dst first.size others p b.1 tail
        ∙ covered-first first others p
        ∙ same p in
      elim (Bool-cases (covered es p)) [
        | inl hit ↦
            let r = copied_all-hit filled runs device p (writes ∙ hit) in
            let e = copied_all-hit host es device p hit in
            let s =
              merge_runs-src cur_buf lo hi top first.dst first.size others r.entry b.0 (omega arith)
                tail r.member in
            let place = run_place e.entry r.entry p (inside e.entry e.member) e.hits r.hits s in
            r.wrote ∙ ap filled place.0 ∙ filled-at device p hit place.1 place.2
        | inr miss ↦
            copied_all-miss filled runs device p (writes ∙ miss)
            ∙ sym (copied_all-miss host es device p miss)
      ]
