-- ===== src/Ring/Spsc.antt =====
-- The lock-free claim of include/ring.h: one producer and one consumer, interleaved at every
-- single access to the shared fields, neither lose nor invent nor reorder a byte.
pub mod Safety
use waltex.Base.{ℕ, ◌-◌, ◌<◌, ◌≡◌, ◌≢◌, List, [], ◌∷◌, ◌++◌, get_or, set}
use waltex.Ring.{Ring, ring_size, next_step}
use waltex.Ring.Queue.{IsRing, count, contents}

-- Where the producer stands inside ring_push.
pub data Producer : Type 0 where
  outside : Producer
  has_room : ℕ → Producer
  stored : ℕ → Producer

-- Where the consumer stands inside ring_pop.
pub data Consumer : Type 0 where
  away : Consumer
  found : Consumer
  loaded : ℕ → Consumer

-- The ring, the two program counters, and the history: the bytes accepted by ring_push and the
-- bytes returned by ring_pop, oldest first.
pub record Shared : Type 0 where
  pub ring : Ring
  pub producer : Producer
  pub consumer : Consumer
  pub accepted : List ℕ
  pub taken : List ℕ

-- One access to the shared fields. ring_push reads `tail`, then stores the byte, then publishes
-- `head`; ring_pop reads `head`, then loads the byte, then releases `tail`.
pub data Step : Shared → Shared → Type 0 where
  check_full :
      (s : Shared) (v : ℕ)
      → s.producer ≡ outside
      → next_step s.ring.head ≢ s.ring.tail
      → Step s (record s { producer = has_room v })
  store :
      (s : Shared) (v : ℕ)
      → s.producer ≡ has_room v
      → Step s (record s {
        ring = record (s.ring) { buf = set s.ring.buf s.ring.head v };
        producer = stored v;
      })
  publish :
      (s : Shared) (v : ℕ)
      → s.producer ≡ stored v
      → Step s (record s {
        ring = record (s.ring) { head = next_step s.ring.head };
        producer = outside;
        accepted = s.accepted ++ (v ∷ []);
      })
  check_empty :
      (s : Shared)
      → s.consumer ≡ away
      → s.ring.head ≢ s.ring.tail
      → Step s (record s { consumer = found })
  load :
      (s : Shared)
      → s.consumer ≡ found
      → Step s (record s { consumer = loaded (get_or s.ring.buf s.ring.tail 0) })
  release :
      (s : Shared) (v : ℕ)
      → s.consumer ≡ loaded v
      → Step s (record s {
        ring = record (s.ring) { tail = next_step s.ring.tail };
        consumer = away;
        taken = s.taken ++ (v ∷ []);
      })

pub data Reach (s : Shared) : Shared → Type 0 where
  here : Reach s s
  next : {t u : Shared} → Reach s t → Step t u → Reach s u

-- What the producer knows after its checks, whatever the consumer does.
abbrev pub ProducerKnows : Ring → Producer → Type 0
ProducerKnows r outside = Unit {0}
ProducerKnows r (has_room v) = count r < ring_size - 1
ProducerKnows r (stored v) = (count r < ring_size - 1) × (get_or r.buf r.head 0 ≡ v)

-- What the consumer knows after its checks, whatever the producer does.
abbrev pub ConsumerKnows : Ring → Consumer → Type 0
ConsumerKnows r away = Unit {0}
ConsumerKnows r found = 0 < count r
ConsumerKnows r (loaded v) = (0 < count r) × (get_or r.buf r.tail 0 ≡ v)

pub record IsSafe (s : Shared) : Type 0 where
  pub ring : IsRing s.ring
  pub producer : ProducerKnows s.ring s.producer
  pub consumer : ConsumerKnows s.ring s.consumer
  pub history : s.accepted ≡ s.taken ++ contents s.ring
