-- ===== src/Util/Queue/Delete.antt =====
-- iot_util_queue_create and iot_util_queue_delete (src/iot_util.c).
use st_device_sdk_c.Prelude.{
  ℕ, zero, suc, ◌≡◌, ◌<◌, refl, ap, ◌∙◌, Bool, true, false, ◌==◌, if◌then◌else◌, List, [], ◌∷◌,
  length, All, Option, none, some, arith,
}
use st_device_sdk_c.Util.Queue.{Ptr, null, Heap, Queue, write}
use st_device_sdk_c.Util.Queue.Refine.{Cells, items, first, Fresh, Chain, Chain-write, IsQueue}

-- The loop around iot_os_mutex_lock, on what its calls answer; `false` while it goes on.
abbrev pub take_lock : List Bool → Bool
take_lock [] = false
take_lock (true ∷ others) = true
take_lock (false ∷ others) = take_lock others

-- What is left of the memory of the nodes, the data blocks freed, in their order, and whether the
-- queue itself is freed.
pub record Released {ℓ} (A : Type ℓ) : Type ℓ where
  pub heap : Heap A
  pub data_freed : List A
  pub queue_freed : Bool

module _ {ℓ} {A : Type ℓ} where
  -- `memory` and `lock` tell whether the queue was allocated and its lock made.
  abbrev pub queue_create : ℕ → Bool → Bool → Option (Queue A)
  queue_create item_size memory lock =
      if item_size == 0
      then none
      else if memory
      then (if lock then some (record { head = null; tail = null; heap = λ p. none }) else none)
      else none

  -- `iot_os_free(tmp->data)`, before what the other rounds free.
  abbrev pub data_first : A → Option (Option (Released A)) → Option (Option (Released A))
  data_first x none = none
  data_first x (some none) = some none
  data_first x (some (some r)) = some (some (record r { data_freed = x ∷ r.data_freed }))

  -- The loop of the deletion, and the end of the queue behind it. The outer `none` is a loop that goes
  -- on after `fuel` rounds, the inner one a read through an address that holds no node.
  unfoldable pub free_nodes : ℕ → Heap A → Ptr → Option (Option (Released A))
  free_nodes zero h iterator = none
  free_nodes (suc fuel) h iterator = elim (iterator == null) [
    | true ↦ some (some (record { heap = h; data_freed = []; queue_freed = true }))
    | false ↦ elim (h iterator) [
      | none ↦ some none
      | some n ↦ data_first n.item (free_nodes fuel (write h iterator none) n.next)
    ]
  ]

  -- `has_lock` tells whether the queue has a lock, which is destroyed in the end; without one nothing
  -- is done. The outer `none` is also a loop that still waits for the lock.
  unfoldable pub queue_delete : ℕ → List Bool → Queue A → Bool → Option (Option (Released A))
  queue_delete fuel locks q false =
      some (some (record { heap = q.heap; data_freed = []; queue_freed = false }))
  queue_delete fuel locks q true = if take_lock locks then free_nodes fuel q.heap q.head else none

  abbrev freed : Cells A → Heap A → Heap A
  freed [] h = h
  freed ((p, x) ∷ cs) h = freed cs (write h p none)

  free_nodes-freed :
      (fuel : ℕ) (h : Heap A) (cs : Cells A)
      → length cs < fuel
      → Chain h cs
      → free_nodes fuel h (first cs)
        ≡ some (some (record { heap = freed cs h; data_freed = items cs; queue_freed = true }))
  unfolding free_nodes
  free_nodes-freed zero h cs enough k = absurd (omega arith)
  free_nodes-freed (suc fuel) h [] enough k = refl
  free_nodes-freed (suc fuel) h ((p, x) ∷ cs) enough k =
      let there : (p == null) ≡ false = ground (arith, k.0) in
      rw (free_nodes, there, k.2)
        (ap (data_first x) (
          free_nodes-freed fuel (write h p none) cs (omega arith)
            (Chain-write h p none cs k.1 k.3)))

  freed-Fresh : (cs : Cells A) (h : Heap A) (p : Ptr) → Fresh p cs → freed cs h p ≡ h p
  freed-Fresh [] h p f = refl
  freed-Fresh ((q, x) ∷ cs) h p f =
      let other : (q == p) ≡ false = ground (arith, f.0) in
      let kept : write h q none p ≡ h p = rw other refl in
      freed-Fresh cs (write h q none) p f.1 ∙ kept

  freed-All :
      (cs : Cells A) (h g : Heap A) → Chain g cs → All (λ (c : Ptr × A). freed cs h c.0 ≡ none) cs
  freed-All [] h g k = tt
  freed-All ((p, x) ∷ cs) h g k =
      let same : (p == p) ≡ true = ground arith in
      let gone : write h p none p ≡ none = rw same refl in
      (freed-Fresh cs (write h p none) p k.1 ∙ gone, freed-All cs (write h p none) g k.3)

  -- For a queue with a lock, once a call of iot_os_mutex_lock succeeds, iot_util_queue_delete ends
  -- after one round for each node and the last test, without reading through a freed address: the data
  -- block of every node is freed, once and in the order of the queue, and so are every node and the
  -- queue; no other node's memory is touched.
  pub queue_delete_frees :
      (q : Queue A) (cs : Cells A) (fuel : ℕ) (locks : List Bool)
      → IsQueue q cs
      → length cs < fuel
      → take_lock locks ≡ true
      → (r : Released A) × (queue_delete fuel locks q true ≡ some (some r))
        × (r.data_freed ≡ items cs)
        × (r.queue_freed ≡ true)
        × All (λ (c : Ptr × A). r.heap c.0 ≡ none) cs
        × ((p : Ptr) → Fresh p cs → r.heap p ≡ q.heap p)
  unfolding queue_delete
  queue_delete_frees q cs fuel locks v enough locked = (
    record { heap = freed cs q.heap; data_freed = items cs; queue_freed = true },
    rw (locked, v.head_first) (free_nodes-freed fuel q.heap cs enough v.chain),
    refl,
    refl,
    freed-All cs q.heap q.heap v.chain,
    λ p f. freed-Fresh cs q.heap p f,
  )
