-- ===== src/ProcessBatch/NoCe.antt =====
-- src/batch_processor.cpp, process_batch_no_ce: without copy engines the entries are sorted by source and
-- copied one after the other by memcpy, in one memory for both sides.
use gfd.Base.{
  ℕ, ◌+◌, ◌-◌, ◌≤◌, ◌<◌, ◌≡◌, refl, ap, fun_ext, ◌∙◌, true, false, arith, ltb, leb, ◌&&◌, inl, inr,
  List, [], ◌∷◌, length, map, Bool-cases,
}
use gfd.Queue.{Descriptor}
use gfd.Driver.{SgEntry}
use gfd.Memory.{Memory, copied, copied_all}
use gfd.Memory.Cover.{covers, In, NoClash, SameEntries-copied}
use gfd.Coalesce.{sum_bytes}
use gfd.Batch.{sg_of}
use gfd.RadixSort.Entries.{KeepsEntries}
use gfd.ProcessBatch.{BatchPoller, count_batch}

unfoldable pub memcpy_all : List SgEntry → Memory → Memory
memcpy_all [] memory = memory
memcpy_all (e ∷ es) memory = memcpy_all es (copied memory e memory)

unfoldable pub process_batch_no_ce :
    ((SgEntry → ℕ) → List SgEntry → List SgEntry) → List Descriptor → BatchPoller → BatchPoller
unfolding memcpy_all count_batch
process_batch_no_ce std_sort batch p =
    let entries = map sg_of batch in
    count_batch (length batch) (length batch) (record p {
      total_bytes_copied = sum_bytes p.total_bytes_copied entries;
      host = memcpy_all (std_sort (λ e. e.src) entries) p.host;
    })

-- No entry writes where one of the entries reads.
abbrev pub SourcesKept : List SgEntry → Type 0
SourcesKept es =
    (e f : SgEntry) (p : ℕ)
    → In e es
    → In f es
    → covers e p ≡ true
    → f.src ≤ p
    → p < f.src + f.size
    → ⊥

-- The sources of the entries hold what they held in `old`.
abbrev Reads : Memory → Memory → List SgEntry → Type 0
Reads old now es = (f : SgEntry) (p : ℕ) → In f es → f.src ≤ p → p < f.src + f.size → now p ≡ old p

copied-Reads :
    (old now : Memory) (e : SgEntry)
    → ((p : ℕ) → e.src ≤ p → p < e.src + e.size → now p ≡ old p)
    → copied now e now ≡ copied old e now
unfolding copied
copied-Reads old now e same = fun_ext λ p.
    elim (Bool-cases (leb e.dst p && ltb p (e.dst + e.size))) [
      | inl hit ↦ rw hit (same (e.src + (p - e.dst)) (omega arith) (ground (arith, hit)))
      | inr miss ↦ rw miss refl
    ]

uncovered :
    (old now : Memory) (e : SgEntry) (p : ℕ) → covers e p ≡ false → copied old e now p ≡ now p
unfolding copied covers
uncovered old now e p miss = rw miss refl

memcpy_all-copied :
    (old now : Memory) (all es : List SgEntry)
    → ((e : SgEntry) → In e es → In e all)
    → SourcesKept all
    → Reads old now all
    → memcpy_all es now ≡ copied_all old es now
unfolding memcpy_all copied_all
memcpy_all-copied old now all [] some kept same = refl
memcpy_all-copied old now all (e ∷ es) some kept same =
    let m = some e (inl refl) in
    let next = copied-Reads old now e (λ p lo hi. same e p m lo hi) in
    let same' : Reads old (copied old e now) all = λ f p n lo hi. elim (Bool-cases (covers e p)) [
      | inl hit ↦ absurd (kept e f p m n hit lo hi)
      | inr miss ↦ uncovered old now e p miss ∙ same f p n lo hi
    ] in
    ap (memcpy_all es) next
    ∙ memcpy_all-copied old (copied old e now) all es (λ f n. some f (inr n)) kept same'

-- With a sort that keeps the entries, and where no entry writes what another reads and entries that
-- write to one address are the same: the memory is left as if every source were read before the batch,
-- and the entries copied in the order of the batch.
pub process_batch_no_ce-copied :
    (std_sort : (SgEntry → ℕ) → List SgEntry → List SgEntry) (batch : List Descriptor)
    (p : BatchPoller)
    → KeepsEntries std_sort
    → SourcesKept (map sg_of batch)
    → NoClash (map sg_of batch)
    → (process_batch_no_ce std_sort batch p).host ≡ copied_all p.host (map sg_of batch) p.host
unfolding process_batch_no_ce
process_batch_no_ce-copied std_sort batch p keeps kept apart =
    let entries = map sg_of batch in
    let s = keeps (λ e. e.src) entries in
    memcpy_all-copied p.host p.host entries (std_sort (λ e. e.src) entries) s.there kept
      (λ f q m lo hi. refl)
    ∙ SameEntries-copied p.host (std_sort (λ e. e.src) entries) entries p.host s apart
