-- ===== src/CopyEngine.antt =====
-- include/gfd/copy_engine.h and src/copy_engine.cpp: the manager of the copy-engine channels. Each
-- method is a function of the driver and the manager, and returns early where the source's
-- GFD_CU_CHECK does.
pub mod Masks
pub mod Runs
pub mod Sent
pub mod Distribute
pub mod Submit
pub mod Wait
pub mod Hazards
pub mod Tests
use Prim.Native.Nat.{bit_and, bit_or}
use gfd.Base.{
  ℕ, zero, suc, ◌+◌, ◌-◌, ◌*◌, ◌/◌, ◌%◌, ◌^◌, min, Bool, true, false, ltb, leb, ◌==◌, ◌&&◌, ◌||◌,
  not, if◌then◌else◌, List, [], ◌∷◌, length, slice, Option, none, some,
}
use gfd.Driver.{
  Call, Driver, Event, Stream, SgEntry, channel, signal, channel_event, ctx_push, ctx_pop,
  priority_range, stream_create, stream_synchronize, stream_destroy, event_create, event_destroy,
  event_record, event_synchronize, stream_wait_event, memcpy_htod_async,
}

abbrev pub max_ce_channels : ℕ
max_ce_channels = 3

-- `streams` and `events` say which of the arrays' pointers are set; `total_bytes_`, a double, is the
-- exact sum. `trace` is what the driver was called with, newest first.
pub record Manager : Type 0 where
  pub streams : ℕ → Bool
  pub events : ℕ → Bool
  pub num_channels : ℕ
  pub initialized : Bool
  pub context_pinned : Bool
  pub next_channel : ℕ
  pub dirty_mask : ℕ
  pub total_submissions : ℕ
  pub total_entries : ℕ
  pub total_bytes : ℕ
  pub trace : List Call

-- `CUDA_SUCCESS` with a value, or an error code.
pub data CuResult (A : Type 0) : Type 0 where
  success : A → CuResult A
  error : ℕ → CuResult A

abbrev pub M : Type 0 → Type 0
M A = Manager → CuResult A × Manager

abbrev pub after : {A B : Type 0} → CuResult A × Manager → (A → M B) → CuResult B × Manager
after (success a, m) f = f a m
after (error c, m) f = (error c, m)

infixl 5 ◌>>=◌ ◌>>◌
abbrev pub ◌>>=◌ : {A B : Type 0} → M A → (A → M B) → M B
◌>>=◌ x f m = after (x m) f

abbrev pub ◌>>◌ : {B : Type 0} → M (Unit {0}) → M B → M B
x >> k = x >>= λ _. k

abbrev pub pure : {A : Type 0} → A → M A
pure a m = (success a, m)

abbrev pub modify : (Manager → Manager) → M (Unit {0})
modify f m = (success tt, f m)

abbrev pub get : M Manager
get m = (success m, m)

module _ (drv : Driver) where
  -- A driver call under GFD_CU_CHECK.
  unfoldable pub check : Call → M (Unit {0})
  check c m =
      let t = c ∷ m.trace in
      (if drv t == 0 then success tt else error (drv t), record m { trace = t })

  -- A driver call whose result is ignored.
  unfoldable pub ignore : Call → M (Unit {0})
  ignore c m = (success tt, record m { trace = c ∷ m.trace })

  unfoldable pub create_channels : ℕ → ℕ → M (Unit {0})
  create_channels zero i = pure tt
  create_channels (suc n) i = do
    check (stream_create (channel i))
    modify (λ m. record m { streams = λ c. (c == i) || m.streams c })
    check (event_create (channel_event i))
    modify (λ m. record m { events = λ c. (c == i) || m.events c })
    create_channels n (i + 1)

  unfoldable pub init : ℕ → M (Unit {0})
  init num_channels m =
      if m.initialized
      then (success tt, m)
      else (do
        modify (λ m. record m {
          num_channels =
              if ltb 0 num_channels && leb num_channels max_ce_channels
              then num_channels
              else m.num_channels;
        })
        check ctx_push
        check priority_range
        m' ← get
        create_channels m'.num_channels 0
        check ctx_pop
        modify (λ m. record m { initialized = true }))
          m

  unfoldable pub destroy_channels : ℕ → ℕ → M (Unit {0})
  destroy_channels zero i = pure tt
  destroy_channels (suc n) i = do
    m ← get
    (if m.streams i
        then (do
          ignore (stream_synchronize (channel i))
          ignore (stream_destroy (channel i))
          modify (λ m. record m { streams = λ c. not (c == i) && m.streams c }))
        else pure tt)
    (if m.events i
        then (do
          ignore (event_destroy (channel_event i))
          modify (λ m. record m { events = λ c. not (c == i) && m.events c }))
        else pure tt)
    destroy_channels n (i + 1)

  unfoldable pub shutdown : M (Unit {0})
  shutdown m =
      if not m.initialized
      then (success tt, m)
      else (do
        (if m.context_pinned then pure tt else ignore ctx_push)
        destroy_channels m.num_channels 0
        (if m.context_pinned then pure tt else ignore ctx_pop)
        modify (λ m. record m { initialized = false }))
          m

  unfoldable pub pin_context : M (Unit {0})
  pin_context m =
      if m.context_pinned
      then (success tt, m)
      else (do check ctx_push; modify (λ m. record m { context_pinned = true })) m

  unfoldable pub unpin_context : M (Unit {0})
  unpin_context m =
      if not m.context_pinned
      then (success tt, m)
      else (do ignore ctx_pop; modify (λ m. record m { context_pinned = false })) m

  -- `if (!context_pinned_)` around a push and a pop of the context.
  unfoldable pub unpinned : Call → M (Unit {0})
  unpinned c m = if m.context_pinned then (success tt, m) else check c m

  -- One copy on a channel.
  unfoldable pub copy_on : ℕ → SgEntry → M (Unit {0})
  copy_on ch e = do
    check (memcpy_htod_async e (channel ch))
    modify (λ m. record m { total_bytes = m.total_bytes + e.size })

  -- Few entries: one to a channel, from `next_channel` on. The result is the mask of the channels.
  unfoldable pub submit_few : List SgEntry → ℕ → M ℕ
  submit_few [] mask = pure mask
  submit_few (e ∷ es) mask = do
    m ← get
    let ch = m.next_channel
    modify (λ m. record m { next_channel = (m.next_channel + 1) % m.num_channels })
    copy_on ch e
    submit_few es (bit_or mask (2 ^ ch))

  unfoldable pub copy_all : ℕ → List SgEntry → M (Unit {0})
  copy_all ch [] = pure tt
  copy_all ch (e ∷ es) = do copy_on ch e; copy_all ch es

  -- Contiguous ranges, one to a channel: `n` channels are left, from `ch` on.
  unfoldable pub submit_chunks : ℕ → ℕ → ℕ → List SgEntry → ℕ → M ℕ
  submit_chunks zero ch chunk_size es mask m = (success mask, m)
  submit_chunks (suc n) ch chunk_size es mask m =
      let start = ch * chunk_size in
      let end = min (start + chunk_size) (length es) in
      let rest = (do
        copy_all ch (slice start end es)
        submit_chunks n (ch + 1) chunk_size es (bit_or mask (2 ^ ch))) in
      if leb (length es) start then (success mask, m) else rest m

  unfoldable pub submit_many : List SgEntry → M ℕ
  submit_many es = do
    m ← get
    let chunk_size = (length es + m.num_channels - 1) / m.num_channels
    mask ← submit_chunks m.num_channels 0 chunk_size es 0
    modify (λ m. record m { next_channel = 0 })
    pure mask

  unfoldable pub distribute : List SgEntry → M ℕ
  distribute es m = if leb (length es) m.num_channels then submit_few es 0 m else submit_many es m

-- `__builtin_ctz` of a mask that is not 0.
unfoldable pub ctz : ℕ → ℕ → ℕ
ctz zero mask = 0
ctz (suc f) mask = let rest = ctz f (mask / 2) in if mask % 2 == 0 then rest + 1 else 0

-- The channels that `while (mask) { ch = ctz(mask); ...; mask &= mask - 1; }` visits. A `uint32_t`
-- has 32 bits, so 32 rounds are enough.
unfoldable pub set_bits : ℕ → ℕ → List ℕ
unfolding ctz
set_bits zero mask = []
set_bits (suc f) mask =
    let rest = set_bits f (bit_and mask (mask - 1)) in if mask == 0 then [] else ctz 32 mask ∷ rest

abbrev pub channels_of : ℕ → List ℕ
channels_of mask = set_bits 32 mask

module _ (drv : Driver) where
  unfoldable pub record_all : List ℕ → M (Unit {0})
  record_all [] = pure tt
  record_all (ch ∷ cs) = do check drv (event_record (channel_event ch) (channel ch)); record_all cs

  unfoldable pub synchronize_all : List ℕ → M (Unit {0})
  synchronize_all [] = pure tt
  synchronize_all (ch ∷ cs) = do
    check drv (event_synchronize (channel_event ch))
    synchronize_all cs

  unfoldable pub wait_on_all : Stream → List ℕ → M (Unit {0})
  wait_on_all stream [] = pure tt
  wait_on_all stream (ch ∷ cs) = do
    check drv (event_record (channel_event ch) (channel ch))
    check drv (stream_wait_event stream (channel_event ch))
    wait_on_all stream cs

  unfoldable pub submit_scatter_gather : List SgEntry → M (Unit {0})
  submit_scatter_gather es m =
      if not m.initialized || (length es == 0)
      then (success tt, m)
      else (do
        unpinned drv ctx_push
        mask ← distribute drv es
        modify (λ m. record m { dirty_mask = bit_or m.dirty_mask mask })
        record_all (channels_of mask)
        unpinned drv ctx_pop
        modify (λ m. record m {
          total_submissions = m.total_submissions + 1;
          total_entries = m.total_entries + length es;
        }))
          m

  unfoldable pub wait_completion : M (Unit {0})
  wait_completion m =
      if not m.initialized || (m.dirty_mask == 0)
      then (success tt, m)
      else (do
        unpinned drv ctx_push
        synchronize_all (channels_of m.dirty_mask)
        modify (λ m. record m { dirty_mask = 0 })
        unpinned drv ctx_pop)
          m

  unfoldable pub record_event_on_last_stream : Event → M (Unit {0})
  record_event_on_last_stream event m =
      if not m.initialized
      then (success tt, m)
      else check drv
          (event_record event (channel ((m.next_channel + m.num_channels - 1) % m.num_channels))) m

  unfoldable pub make_stream_wait_on_all : Stream → M (Unit {0})
  make_stream_wait_on_all stream m =
      if not m.initialized || (m.dirty_mask == 0)
      then (success tt, m)
      else (do
        unpinned drv ctx_push
        wait_on_all stream (channels_of m.dirty_mask)
        unpinned drv ctx_pop)
          m

  unfoldable pub submit_and_wait : List SgEntry → M (Unit {0})
  submit_and_wait es = do submit_scatter_gather es; wait_completion
