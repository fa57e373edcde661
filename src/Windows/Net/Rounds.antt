-- ===== src/Windows/Net/Rounds.antt =====
-- ProcessReadEvent on Windows for a class that keeps its read sockets.
use libcastis_heartbeat.Prelude.{
  ℕ, zero, suc, ◌≤◌, ◌≡◌, refl, ap, sym, ◌∙◌, subst, ℤ, pos, negsuc, ◌==ℤ◌, ==ℤ_refl, ltb_ℤ, Bool,
  true, false, not, Bool-cases, inl, inr, if◌then◌else◌, List, [], ◌∷◌, ◌++◌, append_assoc, length,
  All, Option, none, some, arith,
}
use libcastis_heartbeat.Prelude.Machine.{
  M, pure, when, ◌>>=◌, ◌>>◌, Post, returns, Post->>=, Post-mono, Post-total, >>=-step,
}
use libcastis_heartbeat.Windows.Calls.{Win}
use libcastis_heartbeat.Windows.Net.{
  NetworkThread, NetVirtuals, next_after, first, contains, deref, dispatch_message, serve_socket,
  count_event, advance, is_ready, process_from, process_read_event,
}

-- The elements of a std::set, in order.
abbrev pub Ascending : List ℤ → Type 0
Ascending [] = Unit
Ascending (x ∷ xs) = All (λ y. ltb_ℤ x y ≡ true) xs × Ascending xs

ltb_ℤ-asym : (x y : ℤ) → ltb_ℤ x y ≡ true → ltb_ℤ y x ≡ false
ltb_ℤ-asym (pos m) (pos n) h = ground arith
ltb_ℤ-asym (pos m) (negsuc n) h = cc
ltb_ℤ-asym (negsuc m) (pos n) h = refl
ltb_ℤ-asym (negsuc m) (negsuc n) h = ground arith

ltb_ℤ-irrefl : (x : ℤ) → ltb_ℤ x x ≡ false
ltb_ℤ-irrefl (pos m) = ground arith
ltb_ℤ-irrefl (negsuc m) = ground arith

contains-middle : (k : ℤ) (xs ys : List ℤ) → contains k (xs ++ k ∷ ys) ≡ true
unfolding contains
contains-middle k [] ys = rw (==ℤ_refl k)
contains-middle k (x ∷ xs) ys = elim (Bool-cases (k ==ℤ x)) [
  | inl e ↦ rw e
  | inr e ↦ rw e (contains-middle k xs ys)
]

All-middle : (P : ℤ → Type 0) (k : ℤ) (xs ys : List ℤ) → All P (xs ++ k ∷ ys) → P k
All-middle P k [] ys h = h.0
All-middle P k (x ∷ xs) ys h = All-middle P k xs ys h.1

next_after-middle :
    (k : ℤ) (xs ys : List ℤ) → Ascending (xs ++ k ∷ ys) → next_after k (xs ++ k ∷ ys) ≡ first ys
unfolding next_after first
next_after-middle k [] [] h = rw (ltb_ℤ-irrefl k)
next_after-middle k [] (y ∷ ys) h = rw (ltb_ℤ-irrefl k, h.0.0)
next_after-middle k (x ∷ xs) ys h =
    rw (ltb_ℤ-asym x k (All-middle (λ y. ltb_ℤ x y ≡ true) k xs ys h.0))
      (next_after-middle k xs ys h.1)

-- A class whose overrides return and leave m_ReadSockets alone, as those of CCiHBResponser do, on the
-- objects with `Inv`, which they keep.
pub record KeepsSockets {S World FdSet : Type 0} (v : NetVirtuals S World FdSet) (Inv : S → Type 0)
    : Type 0 where
  pub net-set_net : (t : NetworkThread FdSet) (s : S) → v.net (v.set_net t s) ≡ t
  pub at_count : (n : ℤ) (s : S) → Inv s → Inv (v.set_net (record (v.net s) { events_count = n }) s)
  pub on_receive :
      (sockfd : ℤ) (s : S)
      → Inv s
      → Post ⊥
          (λ _ s'. Inv s' × ((v.net s').read_sockets ≡ (v.net s).read_sockets))
          (v.receive_int_message sockfd s)
  pub on_message :
      (sockfd : ℤ) (m : ℕ) (s : S)
      → Inv s
      → Post ⊥
          (λ _ s'. Inv s' × ((v.net s').read_sockets ≡ (v.net s).read_sockets))
          (v.on_message sockfd m s)
  pub on_error :
      (sockfd : ℤ) (s : S)
      → Inv s
      → Post ⊥
          (λ _ s'. Inv s' × ((v.net s').read_sockets ≡ (v.net s).read_sockets))
          (v.on_read_socket_error sockfd s)

module _ {S World FdSet : Type 0} (win : Win World FdSet) (v : NetVirtuals S World FdSet)
    (Inv : S → Type 0) (laws : KeepsSockets v Inv) (sockets : List ℤ) where
  abbrev Reads : S → Type 0
  Reads s = Inv s × ((v.net s).read_sockets ≡ sockets)

  abbrev Keeping : {A : Type 0} → M S A → Type 0
  Keeping m = (s : S) → Reads s → Post ⊥ (λ _ s'. Reads s') (m s)

  error-Keeping : (k : ℤ) → Keeping (v.on_read_socket_error k >>= λ _. pure tt)
  error-Keeping k s p =
      Post->>= (v.on_read_socket_error k) _ s (laws.on_error k s p.0)
        λ _ s₁ e. returns (e.0, e.1 ∙ p.1)

  deref-Keeping : (k : ℤ) → contains k sockets ≡ true → Keeping (deref win v k)
  unfolding deref
  deref-Keeping k there s p =
      subst (λ b. Post ⊥ (λ (_ : ℤ) s'. Reads s') (if b then some (k, s) else none))
        (sym (ap (contains k) p.1 ∙ there)) (returns p)

  dispatch-Keeping :
      (k : ℤ) (m : Option ℕ) → contains k sockets ≡ true → Keeping (dispatch_message win v k m)
  unfolding dispatch_message
  dispatch-Keeping k none there s p =
      Post->>= (deref win v k) _ s (deref-Keeping k there s p) λ x s₁ q. error-Keeping x s₁ q
  dispatch-Keeping k (some m) there s p =
      Post->>= (deref win v k) _ s (deref-Keeping k there s p) λ x s₁ q.
        Post->>= {P = λ _ s'. Reads s'} (v.on_message x m) _ s₁
          (Post-mono (laws.on_message x m s₁ q.0) λ _ s₂ e. (e.0, e.1 ∙ q.1))
          λ handled s₂ r. reported handled s₂ r
    where
      reported :
          (handled : Bool)
          → Keeping (
              when (not handled) (deref win v k >>= λ x. v.on_read_socket_error x >>= λ _. pure tt))
      reported true s p = returns p
      reported false s p =
          Post->>= (deref win v k) _ s (deref-Keeping k there s p) λ x s₁ q. error-Keeping x s₁ q

  serve-Keeping : (k : ℤ) → contains k sockets ≡ true → Keeping (serve_socket win v k)
  unfolding serve_socket
  serve-Keeping k there s p =
      Post->>= {P = λ _ s'. Reads s'} (v.receive_int_message k) _ s
        (Post-mono (laws.on_receive k s p.0) λ _ s₁ e. (e.0, e.1 ∙ p.1))
        λ m s₁ q. dispatch-Keeping k m there s₁ q

  count-Keeping : Keeping (count_event win v)
  unfolding count_event
  count-Keeping s p =
      returns (laws.at_count _ s p.0, ap (λ t. t.read_sockets) (laws.net-set_net _ s) ∙ p.1)

  advance-Keeping :
      (k : ℤ) (next : Option ℤ) (s : S)
      → contains k sockets ≡ true
      → next_after k sockets ≡ next
      → Reads s
      → Post ⊥ (λ x s'. (x ≡ next) × Reads s') (advance win v k s)
  unfolding advance
  advance-Keeping k next s there after p =
      subst
        (λ b.
          Post ⊥ (λ x s'. (x ≡ next) × Reads s')
            (if b then some (next_after k (v.net s).read_sockets, s) else none))
        (sym (ap (contains k) p.1 ∙ there)) (returns (ap (next_after k) p.1 ∙ after, p))

  ready-Keeping : (k : ℤ) → Keeping (is_ready win v k)
  unfolding is_ready
  ready-Keeping k s p = returns p

  -- A round at the element `k`, before the rest of the loop.
  round-Keeping :
      (k : ℤ) (ready : Bool) (next : M S (Unit {0}))
      → contains k sockets ≡ true
      → Keeping next
      → Keeping (
          if not ready
          then next
          else (do serve_socket win v k; last ← count_event win v; if last then pure tt else next))
  round-Keeping k false next there h s p = h s p
  round-Keeping k true next there h s p =
      Post->>= (serve_socket win v k) _ s (serve-Keeping k there s p)
        λ _ s₁ q. Post->>= (count_event win v) _ s₁ (count-Keeping s₁ q) λ last s₂ r. stop last s₂ r
    where
      stop : (last : Bool) → Keeping (if last then pure tt else next)
      stop true s p = returns p
      stop false s p = h s p

  -- One unit of fuel for each element that is left.
  from-Keeping :
      (fuel : ℕ) (done todo : List ℤ)
      → sockets ≡ done ++ todo
      → Ascending sockets
      → length todo ≤ fuel
      → Keeping (process_from win v fuel (first todo))
  unfolding process_from first
  from-Keeping fuel done [] e h le s p = returns p
  from-Keeping zero done (k ∷ todo) e h le s p = absurd (omega (arith, le))
  from-Keeping (suc fuel) done (k ∷ todo) e h le s p =
      let there = ap (contains k) e ∙ contains-middle k done todo in
      let after = ap (next_after k) e ∙ next_after-middle k done todo (subst Ascending e h) in
      let rest =
        from-Keeping fuel (done ++ k ∷ []) todo (e ∙ sym (append_assoc done (k ∷ []) todo)) h
          (omega (arith, le)) in
      Post->>= (is_ready win v k) _ s (ready-Keeping k s p) λ ready s₁ q.
        round-Keeping k ready (advance win v k >>= process_from win v fuel) there
          (λ s₂ r.
            Post->>= (advance win v k) _ s₂ (advance-Keeping k (first todo) s₂ there after r)
              λ x s₃ a.
                subst (λ x. Post ⊥ (λ (_ : Unit {0}) s'. Reads s') (process_from win v fuel x s₃))
                  (sym a.0) (rest s₃ a.1))
          s₁ q

-- ProcessReadEvent on Windows returns true, and its iterator is never used after its element is gone, if
-- ReceiveIntMessage, OnMessage and OnReadSocketError return and leave m_ReadSockets alone, which is a
-- set, in order and without doubles, on the objects with `Inv`, which they keep: one round of the loop
-- for each read socket is enough, whatever the messages are and however many sockets are ready. The read
-- sockets are the same afterwards, and the object has `Inv`.
pub process_read_event-finishes :
    {S World FdSet : Type 0} (win : Win World FdSet) (v : NetVirtuals S World FdSet)
    (Inv : S → Type 0) (fuel : ℕ) (s : S)
    → KeepsSockets v Inv
    → Inv s
    → Ascending (v.net s).read_sockets
    → length (v.net s).read_sockets ≤ fuel
    → (s' : S) × (process_read_event win v fuel s ≡ some (true, s'))
      × ((v.net s').read_sockets ≡ (v.net s).read_sockets)
      × Inv s'
unfolding process_read_event
process_read_event-finishes win v Inv fuel s laws p h le =
    let sockets = (v.net s).read_sockets in
    let (_, s', e, r) =
      Post-total (from-Keeping win v Inv laws sockets fuel [] sockets refl h le s (p, refl)) in
    (s', >>=-step (process_from win v fuel (first sockets)) _ e, r.1, r.0)
