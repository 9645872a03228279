-- ===== src/Ring/Invariant.antt =====
-- The invariant of the ring: what a slot's place holds in each of its phases.
use gfd.Base.{
  ℕ, zero, suc, ◌+◌, ◌^◌, ◌<◌, ◌≤◌, ◌≡◌, ◌≢◌, refl, ◌∙◌, some, update, [], ◌∷◌, ◌++◌, arith, dec_lt,
  ℕ_discrete,
}
use gfd.Queue.{Descriptor, DescriptorQueue, place, queue_size, add64}
use gfd.Ring.{take_entry, payload, IsFill}
use gfd.Ring.Protocol.{
  World, Phase, idle, filled, committed, Step, reserve, write, commit, take, Reach, here, next, log,
  start, blank, reserved, written, published,
}

-- A slot's place: empty before its commit, and its content and word after.
abbrev SlotFits : World → ℕ → Type 0
SlotFits w s =
    (w.phase s ≡ idle → (w.ring.entries (place s)).sequence ≡ 0)
    × (w.phase s ≡ filled
        → ((w.ring.entries (place s)).sequence ≡ 0)
          × (payload (w.ring.entries (place s)) ≡ w.content s))
    × (w.phase s ≡ committed
        → ((w.ring.entries (place s)).sequence ≡ s + 1)
          × (payload (w.ring.entries (place s)) ≡ w.content s))

pub record Inv (w : World) : Type 0 where
  pub ordered : w.ring.read_idx ≤ w.ring.write_idx
  pub bounded : w.ring.write_idx + 1 < 2 ^ 64
  pub consumed : (s : ℕ) → s < w.ring.read_idx → w.phase s ≡ committed
  pub unreserved : (s : ℕ) → w.ring.write_idx ≤ s → w.phase s ≡ idle
  pub ahead : (s : ℕ) → w.ring.read_idx + queue_size ≤ s → w.phase s ≡ idle
  pub fits : (s : ℕ) → w.ring.read_idx ≤ s → s < w.ring.read_idx + queue_size → SlotFits w s
  pub in_order : w.taken ≡ log w.content w.ring.read_idx

start-Inv : Inv start
start-Inv = record {
  ordered = omega arith;
  bounded = omega arith;
  consumed = λ s h. absurd (omega arith);
  unreserved = λ s h. refl;
  ahead = λ s h. refl;
  fits = λ s h k. (λ p. refl, λ p. absurd (cc), λ p. absurd (cc));
  in_order = refl;
}

reserve-Inv : (w : World) (n : ℕ) → w.ring.write_idx + n + 1 < 2 ^ 64 → Inv w → Inv (reserved w n)
reserve-Inv w n h v = record {
  ordered = omega (arith, v.ordered);
  bounded = omega arith;
  consumed = v.consumed;
  unreserved = λ s k. v.unreserved s (omega arith);
  ahead = v.ahead;
  fits = v.fits;
  in_order = v.in_order;
}

-- Two slots of one window stand in different places.
place-ne :
    (r s t : ℕ)
    → r ≤ s
    → s < r + queue_size
    → r ≤ t
    → t < r + queue_size
    → s ≢ t
    → place s ≢ place t
place-ne r s t hs ks ht kt ne e = ne (omega arith)

log-update :
    (content : ℕ → Descriptor) (s n : ℕ) (d : Descriptor)
    → n ≤ s
    → log (update content s d) n ≡ log content n
log-update content s zero d h = refl
log-update content s (suc n) d h =
    let e = log-update content s n d (omega arith) in
    let f : update content s d n ≡ content n = ground arith in rw (e, f)

write-fits :
    (w : World) (s : ℕ) (change : Descriptor → Descriptor)
    → IsFill change
    → Inv w
    → w.phase s ≡ idle
    → w.ring.read_idx ≤ s
    → s < w.ring.read_idx + queue_size
    → (t : ℕ) → w.ring.read_idx ≤ t
    → t < w.ring.read_idx + queue_size
    → SlotFits (written w s change) t
write-fits w s change fill v e hs ks t ht kt = elim (ℕ_discrete s t) [
  | yes same ↦
      let d = w.ring.entries (place s) in
      let kept = fill.keeps d ∙ (v.fits s hs ks).0 e in
      let over = fill.overwrites d blank in
      rw (← same)
        (ground (arith, kept, over), ground (arith, kept, over), ground (arith, kept, over))
  | no other ↦
      let apart = place-ne w.ring.read_idx s t hs ks ht kt other in
      let old = v.fits t ht kt in (ground (arith, old), ground (arith, old), ground (arith, old))
]

commit-fits :
    (w : World) (s : ℕ)
    → Inv w
    → w.phase s ≡ filled
    → w.ring.read_idx ≤ s
    → s < w.ring.read_idx + queue_size
    → s + 1 < 2 ^ 64
    → (t : ℕ) → w.ring.read_idx ≤ t
    → t < w.ring.read_idx + queue_size
    → SlotFits (published w s) t
commit-fits w s v e hs ks small t ht kt = elim (ℕ_discrete s t) [
  | yes same ↦
      let old = (v.fits s hs ks).1 e in
      rw (← same) (ground (arith, old), ground (arith, old), ground (arith, old))
  | no other ↦
      let apart = place-ne w.ring.read_idx s t hs ks ht kt other in
      let old = v.fits t ht kt in (ground (arith, old), ground (arith, old), ground (arith, old))
]

-- A slot that is not idle lies in the window, if it was not consumed.
filled-window :
    (w : World) (s : ℕ)
    → Inv w
    → w.phase s ≡ filled
    → (w.ring.read_idx ≤ s) × (s < w.ring.write_idx) × (s < w.ring.read_idx + queue_size)
filled-window w s v e = (
  lower (dec_lt s w.ring.read_idx),
  upper (dec_lt s w.ring.write_idx),
  near (dec_lt s (w.ring.read_idx + queue_size)),
)
  where
    lower : Dec (s < w.ring.read_idx) → w.ring.read_idx ≤ s
    lower (yes h) = absurd (cc (v.consumed s h, e))
    lower (no h) = omega arith

    upper : Dec (s < w.ring.write_idx) → s < w.ring.write_idx
    upper (yes h) = h
    upper (no h) = absurd (cc (v.unreserved s (omega arith), e))

    near : Dec (s < w.ring.read_idx + queue_size) → s < w.ring.read_idx + queue_size
    near (yes h) = h
    near (no h) = absurd (cc (v.ahead s (omega arith), e))

idle-window : (w : World) (s : ℕ) → Inv w → w.phase s ≡ idle → w.ring.read_idx ≤ s
idle-window w s v e = elim (dec_lt s w.ring.read_idx) [
  | yes h ↦ absurd (cc (v.consumed s h, e))
  | no h ↦ omega arith
]

write-Inv :
    (w : World) (s : ℕ) (change : Descriptor → Descriptor)
    → IsFill change
    → w.phase s ≡ idle
    → s < w.ring.write_idx
    → s < w.ring.read_idx + queue_size
    → Inv w
    → Inv (written w s change)
write-Inv w s change fill e hw hr v =
    let hs = idle-window w s v e in
    record {
      ordered = v.ordered;
      bounded = v.bounded;
      consumed = λ t h. ground (arith, v.consumed t h);
      unreserved = λ t h. ground (arith, v.unreserved t h);
      ahead = λ t h. ground (arith, v.ahead t h);
      fits = write-fits w s change fill v e hs hr;
      in_order = rw (log-update w.content s w.ring.read_idx (payload (change blank)) hs) v.in_order;
    }

commit-Inv : (w : World) (s : ℕ) → w.phase s ≡ filled → Inv w → Inv (published w s)
commit-Inv w s e v =
    let at = filled-window w s v e in
    record {
      ordered = v.ordered;
      bounded = v.bounded;
      consumed = λ t h. ground (arith, v.consumed t h);
      unreserved = λ t h. ground (arith, v.unreserved t h, at);
      ahead = λ t h. ground (arith, v.ahead t h, at);
      fits = commit-fits w s v e at.0 at.2 (omega (arith, v.bounded));
      in_order = v.in_order;
    }

-- What the consumer can see at `read_idx`: a committed slot, or none that it takes.
pub head_phase :
    (w : World)
    → Inv w
    → (p : Phase) → w.phase w.ring.read_idx ≡ p
    → (w.ring.entries (place w.ring.read_idx)).sequence ≡ w.ring.read_idx + 1
    → p ≡ committed
head_phase w v idle e h =
    absurd (omega (arith, (v.fits w.ring.read_idx (omega arith) (omega arith)).0 e))
head_phase w v filled e h =
    absurd (omega (arith, ((v.fits w.ring.read_idx (omega arith) (omega arith)).1 e).0))
head_phase w v committed e h = refl

unfoldable pub taken_ring : DescriptorQueue → DescriptorQueue
taken_ring q = record q {
  entries =
      update q.entries (place q.read_idx) (record (q.entries (place q.read_idx)) { sequence = 0 });
  read_idx = add64 q.read_idx 1;
}

pub take_entry-some :
    (q : DescriptorQueue) (d : Descriptor) (q' : DescriptorQueue)
    → take_entry q ≡ some (d, q')
    → ((q.entries (place q.read_idx)).sequence ≡ add64 q.read_idx 1)
      × (d ≡ q.entries (place q.read_idx))
      × (q' ≡ taken_ring q)
unfolding take_entry taken_ring
take_entry-some q d q' h = ground arith

abbrev after_take : World → World
after_take w = record w {
  ring = taken_ring w.ring;
  taken = w.taken ++ payload (w.ring.entries (place w.ring.read_idx)) ∷ [];
}

-- The place freed by the consumer serves the slot one ring further on, which is still idle.
take-fits :
    (w : World)
    → Inv w
    → w.ring.read_idx + 1 < 2 ^ 64
    → (t : ℕ) → w.ring.read_idx + 1 ≤ t
    → t < w.ring.read_idx + 1 + queue_size
    → SlotFits (after_take w) t
unfolding taken_ring
take-fits w v small t ht kt = elim (ℕ_discrete t (w.ring.read_idx + queue_size)) [
  | yes edge ↦
      let fresh = v.ahead t (omega arith) in
      let same : place w.ring.read_idx ≡ place t = omega arith in
      (ground (arith, same), λ p. absurd (cc (fresh, p)), λ p. absurd (cc (fresh, p)))
  | no inner ↦
      let apart =
        place-ne w.ring.read_idx w.ring.read_idx t (omega arith) (omega arith) (omega arith)
          (omega arith) (omega arith) in
      let old = v.fits t (omega arith) (omega arith) in
      (ground (arith, old), ground (arith, old), ground (arith, old))
]

after_take-Inv :
    (w : World)
    → (w.ring.entries (place w.ring.read_idx)).sequence ≡ add64 w.ring.read_idx 1
    → w.ring.read_idx + 1 < 2 ^ 64
    → Inv w
    → Inv (after_take w)
unfolding taken_ring
after_take-Inv w e small v =
    let ready = head_phase w v (w.phase w.ring.read_idx) refl (omega arith) in
    let reserved = head_reserved w v ready in
    let old = ((v.fits w.ring.read_idx (omega arith) (omega arith)).2 ready).1 in
    let step : add64 w.ring.read_idx 1 ≡ suc w.ring.read_idx = omega arith in
    record {
      ordered = omega arith;
      bounded = v.bounded;
      consumed = λ t h. consumed t (ℕ_discrete t w.ring.read_idx) (omega arith);
      unreserved = v.unreserved;
      ahead = λ t h. v.ahead t (omega arith);
      fits = λ t ht kt. take-fits w v small t (omega arith) (omega arith);
      in_order = rw (step, v.in_order, old);
    }
  where
    head_reserved :
        (w : World)
        → Inv w
        → w.phase w.ring.read_idx ≡ committed
        → w.ring.read_idx < w.ring.write_idx
    head_reserved w v e = elim (dec_lt w.ring.read_idx w.ring.write_idx) [
      | yes h ↦ h
      | no h ↦ absurd (cc (v.unreserved w.ring.read_idx (omega arith), e))
    ]

    consumed : (t : ℕ) → Dec (t ≡ w.ring.read_idx) → t < suc w.ring.read_idx → w.phase t ≡ committed
    consumed t (yes e') h = rw e' (head_phase w v (w.phase w.ring.read_idx) refl (omega arith))
    consumed t (no ne) h = v.consumed t (omega arith)

take-Inv :
    (w : World) (d : Descriptor) (q : DescriptorQueue)
    → take_entry w.ring ≡ some (d, q)
    → Inv w
    → Inv (record w { ring = q; taken = w.taken ++ payload d ∷ [] })
take-Inv w d q h v =
    let (word, entry, ring) = take_entry-some w.ring d q h in
    rw (entry, ring) (after_take-Inv w word (omega (arith, v.ordered, v.bounded)) v)

pub Step-Inv : {w w' : World} → Step w w' → Inv w → Inv w'
Step-Inv {w} (reserve n h) v = reserve-Inv w n h v
Step-Inv {w} (write s change fill e hw hr) v = write-Inv w s change fill e hw hr v
Step-Inv {w} (commit s e) v = commit-Inv w s e v
Step-Inv {w} (take d q h) v = take-Inv w d q h v

pub Reach-Inv : {w : World} → Reach w → Inv w
Reach-Inv here = start-Inv
Reach-Inv (next r st) = Step-Inv st (Reach-Inv r)
