-- ===== src/Driver/Clock.antt =====
-- What a trace of calls guarantees about the copies in it. A stream runs its work in order; an event
-- recorded on a stream covers the work queued there before; waiting for the event, or for the
-- stream, means that this work is over.
use gfd.Base.{ℕ, ◌+◌, List, [], ◌∷◌, update, max}
use gfd.Driver.{
  Call, Event, SgEntry, channel, signal, channel_event, staging_event, tile_event,
  stream_synchronize, event_record, event_synchronize, memcpy_htod_async,
}

-- What an event covers: a channel, and how many of its copies.
pub record Mark : Type 0 where
  pub on : ℕ
  pub upto : ℕ

-- The copies issued to each channel, those known to be over, and what each event covers.
pub record Clock : Type 0 where
  pub issued : ℕ → ℕ
  pub finished : ℕ → ℕ
  pub channel_mark : ℕ → Mark
  pub staging_mark : ℕ → Mark
  pub tile_mark : ℕ → Mark

abbrev pub no_mark : Mark
no_mark = record { on = 0; upto = 0 }

abbrev pub start : Clock
start = record {
  issued = λ c. 0;
  finished = λ c. 0;
  channel_mark = λ e. no_mark;
  staging_mark = λ e. no_mark;
  tile_mark = λ e. no_mark;
}

abbrev pub mark_of : Event → Clock → Mark
mark_of (channel_event e) k = k.channel_mark e
mark_of (staging_event e) k = k.staging_mark e
mark_of (tile_event e) k = k.tile_mark e

abbrev pub set_mark : Event → Mark → Clock → Clock
set_mark (channel_event e) m k = record k { channel_mark = update k.channel_mark e m }
set_mark (staging_event e) m k = record k { staging_mark = update k.staging_mark e m }
set_mark (tile_event e) m k = record k { tile_mark = update k.tile_mark e m }

-- The work up to a mark is over.
abbrev pub reached : Mark → Clock → Clock
reached m k = record k { finished = update k.finished m.on (max (k.finished m.on) m.upto) }

abbrev pub tick : Call → Clock → Clock
tick (memcpy_htod_async e (channel c)) k = record k { issued = update k.issued c (k.issued c + 1) }
tick (event_record e (channel c)) k = set_mark e (record { on = c; upto = k.issued c }) k
tick (event_record e signal) k = set_mark e no_mark k
tick (event_synchronize e) k = reached (mark_of e k) k
tick (stream_synchronize (channel c)) k = reached (record { on = c; upto = k.issued c }) k
tick _ k = k

abbrev pub clock : List Call → Clock
clock [] = start
clock (c ∷ t) = tick c (clock t)

-- The copies of a trace, newest first.
abbrev pub copies : List Call → List SgEntry
copies [] = []
copies (memcpy_htod_async e (channel c) ∷ t) = e ∷ copies t
copies (c ∷ t) = copies t
