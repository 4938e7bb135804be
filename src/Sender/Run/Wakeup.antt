-- ===== src/Sender/Run/Wakeup.antt =====
-- crates/bulkmail/src/sender.rs: the main loop does not sleep through a message.
use bulkmail.Prelude.{
  ℕ, ◌+◌, ◌<◌, ◌≡◌, refl, ◌⊎◌, inl, inr, [], true, false, Option, none, some, arith, Bool-cases,
  ◌==◌,
}
use bulkmail.Message.{Message}
use bulkmail.Clock.{TimeSource}
use bulkmail.PriorityQueue.{MessageHeap}
use bulkmail.PriorityQueue.Order.{pop-Pops}
use bulkmail.Adapter.{ChainAdapter}
use bulkmail.Sender.Run.{
  Main, Phase, looking, checked, asleep, push_message, notify_one, take_next, await_message,
  on_block, wake,
}

module _ (A : ChainAdapter) (heap : MessageHeap) (time : TimeSource A.World) where
  -- What the main loop, the callers of `add_message`, the tasks and the chain do, in any order. Each step
  -- is taken at the place of the loop where it can happen. A task does anything to the world, puts a
  -- message back as other callers do, and returns its permit as it ends.
  pub data Step (m : Main A heap time) (m' : Main A heap time) : Type 0 where
    push : (msg : Message) → m' ≡ push_message A heap time msg m → Step m m'
    notify : 0 < m.notifying → m' ≡ notify_one A heap time m → Step m m'
    look : m.phase ≡ looking → m' ≡ (take_next A heap time m).0 → Step m m'
    await : m.phase ≡ checked → m' ≡ await_message A heap time m → Step m m'
    block : (number : Option ℕ) → m' ≡ (on_block A heap time number m).0 → Step m m'
    act : (w : A.World) → m' ≡ record m { sender = record m.sender { world = w } } → Step m m'
    task_end :
        m' ≡ record m { sender = record m.sender { max_in_flight = m.sender.max_in_flight + 1 } }
        → Step m m'

  -- Past the look at an empty queue, a message in the queue has been, or is about to be, announced;
  -- and nothing is stored for a loop that sleeps.
  pub record Inv (m : Main A heap time) : Type 0 where
    pub announced :
        (m.phase ≡ looking)
        ⊎ (heap.items m.sender.queue ≡ [])
        ⊎ (m.sender.message_ready ≡ true)
        ⊎ (0 < m.notifying)
    pub nothing_stored : m.phase ≡ asleep → m.sender.message_ready ≡ false

  pushed-Inv : (msg : Message) (m : Main A heap time) → Inv m → Inv (push_message A heap time msg m)
  unfolding push_message
  pushed-Inv msg m i = record {
    announced = inr (inr (inr (omega arith)));
    nothing_stored = i.nothing_stored;
  }

  notified-Inv : (m : Main A heap time) → Inv (notify_one A heap time m)
  unfolding notify_one
  notified-Inv m = by_phase m.phase refl
    where
      by_phase : (ph : Phase) → m.phase ≡ ph → Inv (wake A heap time ph m)
      by_phase asleep e = record { announced = inl refl; nothing_stored = λ q. cc }
      by_phase looking e = record { announced = inr (inr (inl refl)); nothing_stored = λ q. cc }
      by_phase checked e = record { announced = inr (inr (inl refl)); nothing_stored = λ q. cc }

  looked-Inv : (m : Main A heap time) → m.phase ≡ looking → Inv m → Inv (take_next A heap time m).0
  unfolding take_next
  looked-Inv m p i = elim (Bool-cases (m.sender.max_in_flight == 0)) [
    | inl busy ↦ rw busy i
    | inr slot ↦ elim (pop-Pops heap m.sender.queue) [
      | inl (e, r) ↦ rw (slot, r) (record { announced = inr (inl e); nothing_stored = λ q. cc })
      | inr (pm, q', r, _, _) ↦
          rw (slot, r) (record { announced = inl p; nothing_stored = λ q. cc })
    ]
  ]

  awaited-Inv :
      (m : Main A heap time) → m.phase ≡ checked → Inv m → Inv (await_message A heap time m)
  unfolding await_message
  awaited-Inv m p i = elim (Bool-cases m.sender.message_ready) [
    | inl stored ↦ rw stored (record { announced = inl refl; nothing_stored = λ q. cc })
    | inr none_stored ↦ rw none_stored (record {
      announced = elim i.announced [
        | inl l ↦ absurd (cc)
        | inr (inl empty) ↦ inr (inl empty)
        | inr (inr (inl stored)) ↦ absurd (cc)
        | inr (inr (inr announcing)) ↦ inr (inr (inr announcing))
      ];
      nothing_stored = λ q. refl;
    })
  ]

  blocked-Inv : (number : Option ℕ) (m : Main A heap time) → Inv (on_block A heap time number m).0
  unfolding on_block
  blocked-Inv none m = record { announced = inl refl; nothing_stored = λ q. cc }
  blocked-Inv (some n) m = record { announced = inl refl; nothing_stored = λ q. cc }

  pub Step-Inv : {m m' : Main A heap time} → Step m m' → Inv m → Inv m'
  Step-Inv {m} (push msg e) i = rw e (pushed-Inv msg m i)
  Step-Inv {m} (notify p e) i = rw e (notified-Inv m)
  Step-Inv {m} (look p e) i = rw e (looked-Inv m p i)
  Step-Inv {m} (await p e) i = rw e (awaited-Inv m p i)
  Step-Inv {m} (block number e) i = rw e (blocked-Inv number m)
  Step-Inv {m} (act w e) i =
      rw e (record { announced = i.announced; nothing_stored = i.nothing_stored })
  Step-Inv {m} (task_end e) i =
      rw e (record { announced = i.announced; nothing_stored = i.nothing_stored })

  pub data Reach (s : Main A heap time) : Main A heap time → Type 0 where
    here : Reach s s
    next : {t u : Main A heap time} → Reach s t → Step t u → Reach s u

  Reach-Inv : {s t : Main A heap time} → Inv s → Reach s t → Inv t
  Reach-Inv i here = i
  Reach-Inv i (next r st) = Step-Inv st (Reach-Inv i r)

  -- No wake-up is lost: from a loop that is about to look, in any order of the steps, whenever the
  -- loop sleeps the queue is empty, or a caller that has pushed is about to notify it.
  pub Reach-awake :
      {s t : Main A heap time}
      → s.phase ≡ looking
      → Reach s t
      → t.phase ≡ asleep
      → (heap.items t.sender.queue ≡ []) ⊎ (0 < t.notifying)
  Reach-awake {s} {t} p r q =
      let i = Reach-Inv (record { announced = inl p; nothing_stored = λ z. cc }) r in
      asleep_case i (i.nothing_stored q)
    where
      asleep_case :
          Inv t
          → t.sender.message_ready ≡ false
          → (heap.items t.sender.queue ≡ []) ⊎ (0 < t.notifying)
      asleep_case j e = elim j.announced [
        | inl l ↦ absurd (cc)
        | inr (inl empty) ↦ inl empty
        | inr (inr (inl stored)) ↦ absurd (cc)
        | inr (inr (inr announcing)) ↦ inr announcing
      ]
