-- ===== src/Poller/TileCopies.antt =====
-- What the copies of a batch of tiles leave, however they were merged, whichever channels they run on,
-- and in whatever order their bytes arrive.
use gfd.Base.{
  concat, ◌≡◌, refl, sym, ap, ◌∙◌, true, ltb, ◌&&◌, List, [], ◌∷◌, ◌++◌, length, Bool-cases, inl,
  inr, subst,
}
use gfd.Driver.{Driver, Succeeds, SgEntry}
use gfd.Driver.Clock.{copies}
use gfd.Memory.{Memory, copied_all}
use gfd.Memory.Cover.{copied_all-append}
use gfd.Memory.Concurrent.{
  Outcome, SameBytes, Carries, SameBytes-Outcome, copied_all-Outcome, Carries-SameBytes,
  Carries-same, Carries-append, single-Carries,
}
use gfd.Coalesce.{contiguous_after, sum_bytes, group_copies}
use gfd.Coalesce.Sound.{AllInRange, no_entry, and_entry, group_copies-copied}
use gfd.CopyEngine.{Manager}
use gfd.CopyEngine.Sent.{onto}
use gfd.CopyEngine.Submit.{IsValid}
use gfd.ProcessBatch.Issued.{Sends, submit-Sends}
use gfd.ProcessBatch.Staged.{grouped}
use gfd.Poller.{submit, submit_groups, submit_tiles}

-- Between two states of a manager that is ready in both, copies were issued, and the memory that they
-- may leave is that of copying the entries one by one, and no other.
pub record Left (host : Memory) (es : List SgEntry) (m m' : Manager) : Type 0 where
  pub valid : IsValid m'
  pub ready : m'.initialized ≡ true
  pub sent : List SgEntry
  pub copied : copies m'.trace ≡ onto sent (copies m.trace)
  pub runs : (before : Memory) → Outcome host sent before (copied_all host es before)
  pub memory :
      (before after : Memory) → Outcome host sent before after → after ≡ copied_all host es before

-- The copies that were issued for the entries.
record For (host : Memory) (es : List SgEntry) (m m' : Manager) : Type 0 where
  sent : List SgEntry
  sends : Sends sent m m'
  carries : Carries host sent host es
  same : (device : Memory) → copied_all host sent device ≡ copied_all host es device

For-Left :
    (host : Memory) (es : List SgEntry) (m m' : Manager)
    → SameBytes host es
    → For host es m m'
    → Left host es m m'
For-Left host es m m' agree f = record {
  valid = f.sends.valid;
  ready = f.sends.ready;
  sent = f.sent;
  copied = f.sends.copied;
  runs = λ before.
      subst (Outcome host f.sent before) (f.same before) (copied_all-Outcome host f.sent before);
  memory = λ before after o.
      SameBytes-Outcome host f.sent before after
        (Carries-SameBytes host f.sent host es f.carries agree) o
      ∙ f.same before;
}

AllInRange-append : (es fs : List SgEntry) → AllInRange (es ++ fs) → AllInRange es × AllInRange fs
AllInRange-append [] fs r = (no_entry, r)
AllInRange-append (e ∷ es) fs (and_entry r rs) =
    let split = AllInRange-append es fs rs in (and_entry r split.0, split.1)

onto-append : (xs ys old : List SgEntry) → onto (xs ++ ys) old ≡ onto ys (onto xs old)
onto-append [] ys old = refl
onto-append (x ∷ xs) ys old = onto-append xs ys (x ∷ old)

-- Entries that are merged into one copy, and entries that are not.
group_copies-Carries :
    (host : Memory) (es : List SgEntry) → AllInRange es → Carries host (group_copies es) host es
unfolding group_copies
group_copies-Carries host [] r = Carries-same host []
group_copies-Carries host (e ∷ es) r =
    elim (Bool-cases (ltb 1 (length (e ∷ es)) && contiguous_after e es)) [
      | inl merge ↦
          let one = record e { size = sum_bytes 0 (e ∷ es) } in
          rw merge (
            single-Carries host one host (e ∷ es) (λ device.
              ap (λ c. copied_all host c device) (grouped e es merge)
              ∙ group_copies-copied host device (e ∷ es) r))
      | inr apart ↦ rw apart (Carries-same host (e ∷ es))
    ]

module _ (drv : Driver) (ok : Succeeds drv) (host : Memory) where
  group-For :
      (es : List SgEntry) (m : Manager)
      → AllInRange es
      → IsValid m
      → m.initialized ≡ true
      → For host es m (submit drv (group_copies es) m)
  group-For es m r v init = record {
    sent = group_copies es;
    sends = submit-Sends drv ok (group_copies es) m v init;
    carries = group_copies-Carries host es r;
    same = λ device. group_copies-copied host device es r;
  }

  then-For :
      (es fs : List SgEntry) (m m1 m2 : Manager)
      → For host es m m1
      → For host fs m1 m2
      → For host (es ++ fs) m m2
  then-For es fs m m1 m2 f g = record {
    sent = f.sent ++ g.sent;
    sends = record {
      valid = g.sends.valid;
      ready = g.sends.ready;
      copied =
          g.sends.copied
          ∙ ap (onto g.sent) f.sends.copied
          ∙ sym (onto-append f.sent g.sent (copies m.trace));
    };
    carries = Carries-append host host f.sent g.sent es fs f.carries g.carries;
    same = λ device.
        copied_all-append host device f.sent g.sent
        ∙ g.same (copied_all host f.sent device)
        ∙ ap (copied_all host fs) (f.same device)
        ∙ sym (copied_all-append host device es fs);
  }

  submit_groups-For :
      (groups : List (List SgEntry)) (m : Manager)
      → AllInRange (concat groups)
      → IsValid m
      → m.initialized ≡ true
      → For host (concat groups) m (submit_groups drv groups m)
  unfolding submit_groups
  submit_groups-For [] m r v init = record {
    sent = [];
    sends = record { valid = v; ready = init; copied = refl };
    carries = Carries-same host [];
    same = λ device. refl;
  }
  submit_groups-For (g ∷ gs) m r v init =
      let split = AllInRange-append g (concat gs) r in
      let m1 = submit drv (group_copies g) m in
      let f = group-For g m split.0 v init in
      then-For g (concat gs) m m1 (submit_groups drv gs m1) f
        (submit_groups-For gs m1 split.1 f.sends.valid f.sends.ready)

  submit_all-For :
      (groups : List (List SgEntry)) (es : List SgEntry) (m : Manager)
      → AllInRange es
      → IsValid m
      → m.initialized ≡ true
      → For host es m (submit_groups drv groups m)
      → For host es m (submit_tiles drv es groups m)
  unfolding submit_tiles
  submit_all-For groups [] m r v init each = each
  submit_all-For groups (e ∷ es) m r v init each =
      elim (Bool-cases (ltb 1 (length (e ∷ es)) && contiguous_after e es)) [
        | inl merge ↦ rw merge (
            subst (λ c. For host (e ∷ es) m (submit drv c m)) (sym (grouped e es merge))
              (group-For (e ∷ es) m r v init))
        | inr apart ↦ rw apart each
      ]

  -- Against a driver that reports no error, a valid, initialised manager stays so, and whatever memory
  -- the issued copies may leave, in any order of their bytes, is that of copying the entries of the
  -- tiles one by one, whether they are merged into one copy, into one for each tile, or not at all. No
  -- range wraps around, and entries that write to one address bring the same byte there.
  pub submit_tiles-Left :
      (groups : List (List SgEntry)) (m : Manager)
      → AllInRange (concat groups)
      → SameBytes host (concat groups)
      → IsValid m
      → m.initialized ≡ true
      → Left host (concat groups) m (submit_tiles drv (concat groups) groups m)
  submit_tiles-Left groups m r agree v init =
      For-Left host (concat groups) m (submit_tiles drv (concat groups) groups m) agree
        (submit_all-For groups (concat groups) m r v init (submit_groups-For groups m r v init))
