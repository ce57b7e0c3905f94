-- ===== src/Util/Queue.antt =====
-- iot_util_queue_t (src/iot_util.c): a singly linked list with a head and a tail pointer, under a
-- lock. An address is a number, NULL is 0, and an address that holds no node is not allocated.
-- `none` as the outcome of an operation is a fault: a read or write through such an address.
-- The item's own allocation carries no link, so the item stands in the node.
pub mod Spec
pub mod Refine
pub mod Delete
use st_device_sdk_c.Prelude.{ℕ, ◌==◌, if◌then◌else◌, Bool, true, false, ◌||◌, Option, none, some}
use st_device_sdk_c.Errors.{IotError, error_none, bad_req, invalid_args, mem_alloc, timeout}

abbrev pub Ptr : Type 0
Ptr = ℕ

abbrev pub null : Ptr
null = 0

-- struct iot_util_queue_data
pub record Node {ℓ} (A : Type ℓ) : Type ℓ where
  pub item : A
  pub next : Ptr

abbrev pub Heap {ℓ} : Type ℓ → Type ℓ
Heap A = Ptr → Option (Node A)

-- iot_util_queue_t, with the memory that its nodes lie in.
pub record Queue {ℓ} (A : Type ℓ) : Type ℓ where
  pub head : Ptr
  pub tail : Ptr
  pub heap : Heap A

module _ {ℓ} {A : Type ℓ} where
  abbrev pub write : Heap A → Ptr → Option (Node A) → Heap A
  write h p c q = if p == q then c else h q

  -- `p->next = q`
  abbrev pub set_next : Heap A → Ptr → Ptr → Option (Heap A)
  set_next h p q = elim (h p) [
    | none ↦ none
    | some n ↦ some (write h p (some (record n { next = q })))
  ]

  -- The part of `send` between lock and unlock: `fresh` is the new node.
  pub link : Queue A → Ptr → A → Option (Queue A)
  link q fresh item =
      let h = write q.heap fresh (some (record { item = item; next = null })) in
      if q.head == null || q.tail == null
      then some (record { head = fresh; tail = fresh; heap = h })
      else elim (set_next h q.tail fresh) [
        | none ↦ none
        | some h' ↦ some (record q { tail = fresh; heap = h' })
      ]

  -- `fresh` and `fresh_item` are what the two calls of iot_os_malloc return, `locked` whether the
  -- mutex was taken. `none` for the queue or the item is a NULL argument.
  pub queue_send :
      Option (Queue A) → Option A → Ptr → Ptr → Bool → Option (IotError × Option (Queue A))
  queue_send none item fresh fresh_item locked = some (invalid_args, none)
  queue_send (some q) none fresh fresh_item locked = some (invalid_args, some q)
  queue_send (some q) (some item) fresh fresh_item locked =
      if fresh == null
      then some (mem_alloc, some q)
      else if fresh_item == null
      then some (mem_alloc, some q)
      else if locked
      then elim (link q fresh item) [ none ↦ none | some q' ↦ some (error_none, some q') ]
      else some (timeout, some q)

  -- The part of `receive` under the lock, and the copy and release of the node taken out.
  pub unlink : Queue A → Option (IotError × Queue A × Option A)
  unlink q =
      if q.head == null || q.tail == null then some (bad_req, q, none) else elim (q.heap q.head) [
        | none ↦ none
        | some n ↦
            let released = write q.heap q.head none in
            if q.head == q.tail
            then some
                (error_none, record { head = null; tail = null; heap = released }, some n.item)
            else some (error_none, record q { head = n.next; heap = released }, some n.item)
      ]

  -- The option beside the queue is what was copied through `data`; `room` tells `data != NULL`.
  pub queue_receive :
      Option (Queue A) → Bool → Bool → Option (IotError × Option (Queue A) × Option A)
  unfolding unlink
  queue_receive none room locked = some (invalid_args, none, none)
  queue_receive (some q) false locked = some (invalid_args, some q, none)
  queue_receive (some q) true false = some (timeout, some q, none)
  queue_receive (some q) true true = elim (unlink q) [
    | none ↦ none
    | some (e, q', out) ↦ some (e, some q', out)
  ]
