-- ===== src/Gather/Parts.antt =====
-- The copies of the threads are those of the whole list, and so is what they leave, whatever the turns.
use mathlib.Core.Option.{some-injective}
use gfd.Base.{
  ℕ, zero, suc, ◌+◌, ◌-◌, ◌*◌, ◌/◌, ◌%◌, ◌<◌, ◌≤◌, ◌≡◌, refl, sym, ap, ap₂, subst, ◌∙◌, arith, min,
  List, [], ◌∷◌, ◌++◌, map, concat, length, drop, slice, dec_le, drop-all, slice-append-drop, none,
  some, Option-cases, inl, inr,
}
use native.Mathlib.Nat.{add-zero, zero-add, mod-lt, div-add-mod}
use gfd.Driver.{SgEntry}
use gfd.Memory.{Memory, copied, copied_all}
use gfd.Memory.Cover.{In, SameEntries}
use gfd.Memory.Concurrent.{
  SameBytes, SameBytes-Outcome, SameEntries-Outcome, copied_all-Outcome, In-left, In-right,
  In-either,
}
use gfd.Gather.{
  staged, gather_entries, task_copies, task_of, assign, next_copy, in_turns, thread_copies,
  parallel_gather,
}

gather_entries-copied :
    (host : Memory) (min_dst : ℕ) (es : List SgEntry) (staging : Memory)
    → gather_entries host min_dst es staging ≡ copied_all host (map (staged min_dst) es) staging
unfolding gather_entries copied_all
gather_entries-copied host min_dst [] staging = refl
gather_entries-copied host min_dst (e ∷ es) staging =
    gather_entries-copied host min_dst es (copied host (staged min_dst e) staging)

map_append :
    (f : SgEntry → SgEntry) (xs ys : List SgEntry) → map f (xs ++ ys) ≡ map f xs ++ map f ys
map_append f [] ys = refl
map_append f (x ∷ xs) ys = ap (λ l. f x ∷ l) (map_append f xs ys)

-- A part for each of `n + 1` threads, rounded up, is enough for the whole.
pub ceiling : (len n : ℕ) → len ≤ (n + 1) * ((len + (n + 1) - 1) / (n + 1))
ceiling len n =
    let q = (len + (n + 1) - 1) / (n + 1) in
    let r = (len + (n + 1) - 1) % (n + 1) in
    let split : (n + 1) * q + r ≡ len + (n + 1) - 1 = div-add-mod (len + (n + 1) - 1) (n + 1) in
    let small : r < n + 1 = mod-lt (len + (n + 1) - 1) (omega arith) in omega (arith, split, small)

-- The tasks of the workers from `w` on are what is left from `(w + 1) * chunk`.
assign-copies :
    (entries : List SgEntry) (min_dst chunk left w : ℕ)
    → length entries ≤ (w + 1 + left) * chunk
    → concat (map task_copies (assign entries min_dst chunk left w))
      ≡ map (staged min_dst) (drop ((w + 1) * chunk) entries)
unfolding assign task_copies
assign-copies entries min_dst chunk zero w h =
    let e : drop ((w + 1) * chunk) entries ≡ [] =
      drop-all ((w + 1) * chunk) entries
        (omega (arith, ap (λ (t : ℕ). t * chunk) (add-zero (w + 1)))) in
    rw e refl
assign-copies entries min_dst chunk (suc left) w h =
    let later = assign-copies entries min_dst chunk left (w + 1) (omega arith) in
    elim (dec_le (length entries) ((w + 1) * chunk)) [
      | yes over ↦
          let none_here : task_copies (task_of entries min_dst chunk w) ≡ [] =
            ground (arith, over) in
          let e = drop-all ((w + 1) * chunk) entries over in
          let e' = drop-all ((w + 1 + 1) * chunk) entries (omega (arith, over)) in
          ap₂ (λ xs ys. xs ++ ys) none_here later ∙ ap (map (staged min_dst)) (e' ∙ sym e)
      | no more ↦
          let start = (w + 1) * chunk in
          let part = slice start (min (start + chunk) (length entries)) entries in
          let mine : task_copies (task_of entries min_dst chunk w) ≡ map (staged min_dst) part =
            ground (arith, more) in
          let next : (w + 1 + 1) * chunk ≡ start + chunk = omega arith in
          let rest : part ++ drop ((w + 1 + 1) * chunk) entries ≡ drop start entries =
            rw next (slice-append-drop start chunk entries) in
          ap₂ (λ xs ys. xs ++ ys) mine later
          ∙ sym (map_append (staged min_dst) part (drop ((w + 1 + 1) * chunk) entries))
          ∙ ap (map (staged min_dst)) rest
    ]

thread_copies-all :
    (num_workers : ℕ) (entries : List SgEntry) (min_dst : ℕ)
    → concat (thread_copies num_workers entries min_dst) ≡ map (staged min_dst) entries
unfolding thread_copies
thread_copies-all num_workers entries min_dst =
    let chunk = (length entries + (num_workers + 1) - 1) / (num_workers + 1) in
    let one : (0 + 1) * chunk ≡ chunk = omega arith in
    let all : slice 0 (min chunk (length entries)) entries ++ drop ((0 + 1) * chunk) entries
        ≡ entries =
      rw one (rw (zero-add) at (slice-append-drop 0 chunk entries)) in
    let first = slice 0 (min chunk (length entries)) entries in
    ap (λ l. map (staged min_dst) first ++ l)
      (assign-copies entries min_dst chunk num_workers 0
        (omega (arith, ceiling (length entries) num_workers)))
    ∙ sym (map_append (staged min_dst) first (drop ((0 + 1) * chunk) entries))
    ∙ ap (map (staged min_dst)) all

-- Without turns the threads copy one after the other.
pub parallel_gather-in_order :
    (host : Memory) (num_workers : ℕ) (entries : List SgEntry) (min_dst : ℕ) (staging : Memory)
    → parallel_gather host num_workers entries min_dst [] staging
      ≡ gather_entries host min_dst entries staging
unfolding parallel_gather in_turns
parallel_gather-in_order host num_workers entries min_dst staging =
    ap (λ es. copied_all host es staging) (thread_copies-all num_workers entries min_dst)
    ∙ sym (gather_entries-copied host min_dst entries staging)

-- A turn that finds no copy leaves the threads as they are.
next_copy-none :
    (thread : ℕ) (threads : List (List SgEntry))
    → (next_copy thread threads).0 ≡ none
    → concat (next_copy thread threads).1 ≡ concat threads
unfolding next_copy
next_copy-none thread [] h = refl
next_copy-none zero ([] ∷ threads) h = refl
next_copy-none zero ((e ∷ es) ∷ threads) h = absurd (ground (arith, h))
next_copy-none (suc thread) (es ∷ threads) h = ap (λ l. es ++ l) (next_copy-none thread threads h)

-- A turn that finds a copy takes it from the threads.
next_copy-there :
    (thread : ℕ) (threads : List (List SgEntry)) (e x : SgEntry)
    → (next_copy thread threads).0 ≡ some e
    → In x (e ∷ concat (next_copy thread threads).1)
    → In x (concat threads)
unfolding next_copy
next_copy-there thread [] e x h m = absurd (ground (arith, h))
next_copy-there zero ([] ∷ threads) e x h m = absurd (ground (arith, h))
next_copy-there zero ((f ∷ es) ∷ threads) e x h m =
    subst (λ f. In x (f ∷ (es ++ concat threads))) (sym (some-injective _ _ h)) m
next_copy-there (suc thread) (es ∷ threads) e x h (inl same) =
    In-right x es (concat threads) (next_copy-there thread threads e x h (inl same))
next_copy-there (suc thread) (es ∷ threads) e x h (inr m) =
    elim (In-either x es (concat (next_copy thread threads).1) m) [
      | inl l ↦ In-left x es (concat threads) l
      | inr r ↦ In-right x es (concat threads) (next_copy-there thread threads e x h (inr r))
    ]

next_copy-back :
    (thread : ℕ) (threads : List (List SgEntry)) (e x : SgEntry)
    → (next_copy thread threads).0 ≡ some e
    → In x (concat threads)
    → In x (e ∷ concat (next_copy thread threads).1)
unfolding next_copy
next_copy-back thread [] e x h m = absurd m
next_copy-back zero ([] ∷ threads) e x h m = absurd (ground (arith, h))
next_copy-back zero ((f ∷ es) ∷ threads) e x h m =
    subst (λ f. In x (f ∷ (es ++ concat threads))) (some-injective _ _ h) m
next_copy-back (suc thread) (es ∷ threads) e x h m = elim (In-either x es (concat threads) m) [
  | inl l ↦ inr (In-left x es (concat (next_copy thread threads).1) l)
  | inr r ↦ elim (next_copy-back thread threads e x h r) [
    | inl same ↦ inl same
    | inr k ↦ inr (In-right x es (concat (next_copy thread threads).1) k)
  ]
]

-- Whatever the turns, the copies are those of the threads.
in_turns-SameEntries :
    (turns : List ℕ) (threads : List (List SgEntry))
    → SameEntries (in_turns turns threads) (concat threads)
unfolding in_turns
in_turns-SameEntries [] threads = record { there = λ x m. m; back = λ x m. m }
in_turns-SameEntries (turn ∷ turns) threads =
    let rest = (next_copy turn threads).1 in
    let later = in_turns-SameEntries turns rest in
    elim (Option-cases (next_copy turn threads).0) [
      | inl missing ↦
          rw (in_turns, missing)
            (subst (SameEntries (in_turns turns rest)) (next_copy-none turn threads missing) later)
      | inr (e, found) ↦
          rw (in_turns, found)
            (record {
              there = λ x m.
                  next_copy-there turn threads e x found
                    (elim m [ inl same ↦ inl same | inr k ↦ inr (later.there x k) ]);
              back = λ x m. elim (next_copy-back turn threads e x found m) [
                | inl same ↦ inl same
                | inr k ↦ inr (later.back x k)
              ];
            })
    ]

-- However many workers there are, and in whatever turns they and the caller copy, the staging buffer is
-- left as one loop over the entries leaves it, each copied to its distance from `min_dst`; entries that
-- are copied to one place in the buffer bring the same byte there.
pub parallel_gather-gather_entries :
    (host : Memory) (num_workers : ℕ) (entries : List SgEntry) (min_dst : ℕ) (turns : List ℕ)
    (staging : Memory)
    → SameBytes host (map (staged min_dst) entries)
    → parallel_gather host num_workers entries min_dst turns staging
      ≡ gather_entries host min_dst entries staging
unfolding parallel_gather
parallel_gather-gather_entries host num_workers entries min_dst turns staging same =
    let threads = thread_copies num_workers entries min_dst in
    let order = in_turns turns threads in
    let all = map (staged min_dst) entries in
    let s : SameEntries order all =
      subst (SameEntries order) (thread_copies-all num_workers entries min_dst)
        (in_turns-SameEntries turns threads) in
    SameBytes-Outcome host all staging (copied_all host order staging) same (
      SameEntries-Outcome host order all staging (copied_all host order staging) s
        (copied_all-Outcome host order staging))
    ∙ sym (gather_entries-copied host min_dst entries staging)
