-- ===== src/Util/Queue/Refine.antt =====
-- The linked queue of src/iot_util.c against the queue of `Spec`.
use st_device_sdk_c.Prelude.{
  ◌≡◌, ◌≢◌, refl, sym, ap, subst, inl, inr, Bool-cases, ◌==◌, Bool, true, false, not, List, [], ◌∷◌,
  ◌++◌, Option, none, some, arith,
}
use st_device_sdk_c.Util.Queue.{
  Ptr, null, Node, Heap, Queue, write, link, queue_send, queue_receive,
}
use st_device_sdk_c.Util.Queue.Spec.{send, receive}

-- The nodes of a queue, each at its address.
abbrev pub Cells {ℓ} : Type ℓ → Type ℓ
Cells A = List (Ptr × A)

module _ {ℓ} {A : Type ℓ} where
  abbrev pub items : Cells A → List A
  items [] = []
  items ((p, x) ∷ cs) = x ∷ items cs

  abbrev pub first : Cells A → Ptr
  first [] = null
  first ((p, x) ∷ cs) = p

  abbrev pub last : Cells A → Ptr
  last [] = null
  last ((p, x) ∷ []) = p
  last ((p, x) ∷ c ∷ cs) = last (c ∷ cs)

  abbrev pub Fresh : Ptr → Cells A → Type 0
  Fresh p [] = Unit {0}
  Fresh p ((q, x) ∷ cs) = (p ≢ q) × Fresh p cs

  -- Each cell lies at an address of its own that is not NULL, and links to the next one.
  abbrev pub Chain : Heap A → Cells A → Type ℓ
  Chain h [] = Unit {ℓ}
  Chain h ((p, x) ∷ cs) =
      (p ≢ null) × Fresh p cs × (h p ≡ some (record { item = x; next = first cs })) × Chain h cs

  pub record IsQueue (q : Queue A) (cs : Cells A) : Type ℓ where
    pub head_first : q.head ≡ first cs
    pub tail_last : q.tail ≡ last cs
    pub chain : Chain q.heap cs

  items-append : (cs ds : Cells A) → items (cs ++ ds) ≡ items cs ++ items ds
  items-append [] ds = refl
  items-append ((p, x) ∷ cs) ds = ap (◌∷◌ x) (items-append cs ds)

  pub Chain-write :
      (h : Heap A) (p : Ptr) (c : Option (Node A)) (cs : Cells A)
      → Fresh p cs
      → Chain h cs
      → Chain (write h p c) cs
  Chain-write h p c [] f k = tt
  Chain-write h p c ((q, x) ∷ cs) f k = (k.0, k.1, ground arith, Chain-write h p c cs f.1 k.3)

  Fresh-of_none : (h : Heap A) (p : Ptr) (cs : Cells A) → h p ≡ none → Chain h cs → Fresh p cs
  Fresh-of_none h p [] e k = tt
  Fresh-of_none h p ((q, x) ∷ cs) e k = ((λ same. cc), Fresh-of_none h p cs e k.3)

  Fresh-snoc : (p q : Ptr) (y : A) (cs : Cells A) → Fresh p cs → p ≢ q → Fresh p (cs ++ (q, y) ∷ [])
  Fresh-snoc p q y [] f n = (n, tt)
  Fresh-snoc p q y (c ∷ cs) f n = (f.0, Fresh-snoc p q y cs f.1 n)

  last-ne_null : (h : Heap A) (c : Ptr × A) (cs : Cells A) → Chain h (c ∷ cs) → last (c ∷ cs) ≢ null
  last-ne_null h c [] k = k.0
  last-ne_null h c (d ∷ cs) k = last-ne_null h d cs k.3

  last-ne_of_Fresh : (p : Ptr) (c : Ptr × A) (cs : Cells A) → Fresh p (c ∷ cs) → p ≢ last (c ∷ cs)
  last-ne_of_Fresh p c [] f = f.0
  last-ne_of_Fresh p c (d ∷ cs) f = last-ne_of_Fresh p d cs f.1

  last-snoc : (cs : Cells A) (q : Ptr) (y : A) → last (cs ++ (q, y) ∷ []) ≡ q
  last-snoc [] q y = refl
  last-snoc (c ∷ []) q y = refl
  last-snoc (c ∷ d ∷ cs) q y = last-snoc (d ∷ cs) q y

  last_cell :
      (h : Heap A) (c : Ptr × A) (cs : Cells A)
      → Chain h (c ∷ cs)
      → (z : A) × (h (last (c ∷ cs)) ≡ some (record { item = z; next = null }))
  last_cell h c [] k = (c.1, k.2)
  last_cell h c (d ∷ cs) k = last_cell h d cs k.3

  -- Linking a new node behind the last one extends the chain.
  link-Chain :
      (h : Heap A) (p : Ptr) (y z : A) (c : Ptr × A) (cs : Cells A)
      → p ≢ null
      → h p ≡ some (record { item = y; next = null })
      → Fresh p (c ∷ cs)
      → Chain h (c ∷ cs)
      → h (last (c ∷ cs)) ≡ some (record { item = z; next = null })
      → Chain
          (write h (last (c ∷ cs)) (some (record { item = z; next = p })))
          ((c ∷ cs) ++ (p, y) ∷ [])
  link-Chain h p y z (q, x) [] n e f k l =
      (k.0, ((λ same. f.0 (sym same)), tt), ground arith, (n, tt, ground arith, tt))
  link-Chain h p y z (q, x) (d ∷ cs) n e f k l = (
    k.0,
    Fresh-snoc q p y (d ∷ cs) k.1 (λ same. f.0 (sym same)),
    ground (arith, last-ne_of_Fresh q d cs k.1),
    link-Chain h p y z d cs n e f.1 k.3 l,
  )

  link_nonempty :
      (q : Queue A) (p : Ptr) (x z : A)
      → q.head ≢ null
      → q.tail ≢ null
      → write q.heap p (some (record { item = x; next = null })) q.tail
        ≡ some (record { item = z; next = null })
      → link q p x
        ≡ some (record q {
          tail = p;
          heap =
              write
                (write q.heap p (some (record { item = x; next = null })))
                q.tail
                (some (record { item = z; next = p }));
        })
  unfolding link
  link_nonempty q p x z nh nt e = ground arith

  -- The new node is not in the chain, so it can be written first.
  link-IsQueue :
      (q : Queue A) (cs : Cells A) (p : Ptr) (x : A)
      → IsQueue q cs
      → p ≢ null
      → q.heap p ≡ none
      → (q' : Queue A) × (link q p x ≡ some q') × IsQueue q' (cs ++ (p, x) ∷ [])
  unfolding link
  link-IsQueue q [] p x v n e = (
    record { head = p; tail = p; heap = write q.heap p (some (record { item = x; next = null })) },
    ground (arith, v.head_first),
    record { head_first = refl; tail_last = refl; chain = (n, tt, ground arith, tt) },
  )
  link-IsQueue q (c ∷ cs) p x v n e =
      let h = write q.heap p (some (record { item = x; next = null })) in
      let apart = Fresh-of_none q.heap p (c ∷ cs) e v.chain in
      let chain = Chain-write q.heap p _ (c ∷ cs) apart v.chain in
      let (z, at_last) = last_cell h c cs chain in
      (
        record q { tail = p; heap = write h q.tail (some (record { item = z; next = p })) },
        link_nonempty q p x z (rw v.head_first v.chain.0)
            (rw v.tail_last (last-ne_null q.heap c cs v.chain)) (rw v.tail_last at_last),
        record {
          head_first = v.head_first;
          tail_last = sym (last-snoc (c ∷ cs) p x);
          chain =
              subst
                (λ t.
                  Chain (write h t (some (record { item = z; next = p })))
                    ((c ∷ cs) ++ (p, x) ∷ []))
                (sym v.tail_last) (link-Chain h p x z c cs n (ground arith) apart chain at_last);
        },
      )

  -- On a queue whose nodes hold `items cs`, and with `fresh` NULL or an address that is not in use:
  -- iot_util_queue_send never faults, returns the code of `Spec.send`, and leaves a queue that
  -- holds the items of `Spec.send`: the new one last if both allocations and the lock succeeded, and
  -- the old ones otherwise.
  pub queue_send_refines :
      (q : Queue A) (cs : Cells A) (x : A) (fresh fresh_item : Ptr) (locked : Bool)
      → IsQueue q cs
      → q.heap fresh ≡ none
      → let (code, xs) =
          send (items cs) x (not (fresh == null)) (not (fresh_item == null)) locked in
        (q' : Queue A) × (ds : Cells A) × (queue_send (some q) (some x) fresh fresh_item locked
          ≡ some (code, some q'))
        × IsQueue q' ds
        × (items ds ≡ xs)
  unfolding queue_send
  queue_send_refines q cs x fresh fresh_item false v e = (q, cs, ground arith, v, ground arith)
  queue_send_refines q cs x fresh fresh_item true v e = elim (Bool-cases (fresh == null)) [
    | inl no_node ↦ (q, cs, rw no_node, v, rw no_node)
    | inr node ↦ elim (Bool-cases (fresh_item == null)) [
      | inl no_item ↦ (q, cs, rw (node, no_item), v, rw (node, no_item))
      | inr item ↦
          let (q', linked, v') = link-IsQueue q cs fresh x v (λ e. ground arith) e in
          (
            q',
            cs ++ (fresh, x) ∷ [],
            rw (node, item, linked),
            v',
            rw (node, item) (items-append cs ((fresh, x) ∷ [])),
          )
    ]
  ]

  -- On a queue whose nodes hold `items cs`: iot_util_queue_receive, given room for the item, never
  -- faults, returns the code and the item of `Spec.receive`, and leaves a queue of the items left.
  pub queue_receive_refines :
      (q : Queue A) (cs : Cells A) (locked : Bool)
      → IsQueue q cs
      → let (code, xs, out) = receive (items cs) locked in
        (q' : Queue A) × (ds : Cells A) × (queue_receive (some q) true locked
          ≡ some (code, some q', out))
        × IsQueue q' ds
        × (items ds ≡ xs)
  unfolding queue_receive
  queue_receive_refines q cs false v = (q, cs, refl, v, refl)
  queue_receive_refines q [] true v = (q, [], ground (arith, v.head_first), v, refl)
  queue_receive_refines q ((p, x) ∷ []) true v = (
    record { head = null; tail = null; heap = write q.heap q.head none },
    [],
    ground (arith, v.head_first),
    record { head_first = refl; tail_last = refl; chain = tt },
    refl,
  )
  queue_receive_refines q ((p, x) ∷ d ∷ cs) true v = (
    record q { head = d.0; heap = write q.heap q.head none },
    d ∷ cs,
    ground (
      arith,
      v.head_first,
      v.tail_last,
      v.chain,
      last-ne_of_Fresh p d cs v.chain.1,
      last-ne_null q.heap d cs v.chain.3,
    ),
    record {
      head_first = refl;
      tail_last = v.tail_last;
      chain =
          subst (λ t. Chain (write q.heap t none) (d ∷ cs)) (sym v.head_first)
            (Chain-write q.heap p none (d ∷ cs) v.chain.1 v.chain.3);
    },
    refl,
  )
