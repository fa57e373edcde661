-- ===== src/Responser/Ledger.antt =====
-- Which sockets are open, and which of them the responder is to close.
use libcastis_heartbeat.Prelude.{
  ℕ, ◌≡◌, refl, ◌∙◌, ap, Bool, Bool-cases, inl, inr, true, false, not, ◌&&◌, ◌||◌, ℤ, negsuc, ◌==ℤ◌,
  ==ℤ_iff, ltb_ℤ, is_negative, List, [], ◌∷◌,
}
use libcastis_heartbeat.Poll.{Pollfd}
use libcastis_heartbeat.Os.{Os, Sockets}
use libcastis_heartbeat.Net.{nu_disconnect, disconnect_all}
use libcastis_heartbeat.Net.ReadSockets.{insert}
use libcastis_heartbeat.Responser.Through.{ThroughRounds}

-- Of a descriptor: whether it is open, and whether it is open and nobody's: from before the program, or
-- since setsockopt or bind has failed on it.
pub record Books (World : Type 0) : Type 0 where
  pub held : ℤ → World → Bool
  pub stray : ℤ → World → Bool

-- Nothing changes for any descriptor.
abbrev pub Unmoved : {World : Type 0} → Books World → World → World → Type 0
Unmoved b w w' = (fd : ℤ) → (b.held fd w' ≡ b.held fd w) × (b.stray fd w' ≡ b.stray fd w)

-- The calls on sockets keep the books: socket opens a descriptor that was not open, and the others neither
-- open nor close any.
pub record SocketsLedger {World Addr : Type 0} (sockets : Sockets World Addr) (b : Books World)
    : Type 0 where
  pub at_no_socket :
      (w : World) → is_negative (sockets.socket w).0 ≡ true → Unmoved b w (sockets.socket w).1
  pub fresh :
      (w : World) → is_negative (sockets.socket w).0 ≡ false → b.held (sockets.socket w).0 w ≡ false
  pub at_socket :
      (w : World)
      → is_negative (sockets.socket w).0 ≡ false
      → (fd : ℤ)
      → (b.held fd (sockets.socket w).1 ≡ ((fd ==ℤ (sockets.socket w).0) || b.held fd w))
        × (b.stray fd (sockets.socket w).1 ≡ b.stray fd w)
  pub at_reuse :
      (sock : ℤ) (value : ℕ) (w : World) (fd : ℤ)
      → (b.held fd (sockets.set_reuse_addr sock value w).1 ≡ b.held fd w)
        × (b.stray fd (sockets.set_reuse_addr sock value w).1 ≡ (
            (fd ==ℤ sock) && ((sockets.set_reuse_addr sock value w).0 ==ℤ negsuc 0)
            || b.stray fd w))
  pub at_bind :
      (sock : ℤ) (port : ℕ) (w : World) (fd : ℤ)
      → (b.held fd (sockets.bind sock port w).1 ≡ b.held fd w)
        × (b.stray fd (sockets.bind sock port w).1
            ≡ ((fd ==ℤ sock) && is_negative (sockets.bind sock port w).0 || b.stray fd w))
  pub at_recvfrom : (sock : ℤ) (room : ℕ) (w : World) → Unmoved b w (sockets.recvfrom sock room w).1
  pub at_sendto :
      (sock : ℤ) (bytes : List ℕ) (addr : Addr) (w : World)
      → Unmoved b w (sockets.sendto sock bytes addr w).1

-- A call that closes one descriptor.
abbrev pub Closing : {World : Type 0} → Books World → (ℤ → World → ℤ × World) → Type 0
Closing {World} b close =
    (sock : ℤ) (w : World) (fd : ℤ)
    → (b.held fd (close sock w).1 ≡ (not (fd ==ℤ sock) && b.held fd w))
      × (b.stray fd (close sock w).1 ≡ b.stray fd w)

-- Linux keeps the books: close closes a descriptor, and no other call but socket opens or closes one.
pub record Ledger {World Addr : Type 0} (os : Os World Addr) (b : Books World) : Type 0 where
  pub on_sockets : SocketsLedger os.sockets b
  pub at_close : Closing b os.close
  pub at_poll :
      (fds : List Pollfd) (timeout : ℤ) (w : World) → Unmoved b w (os.poll fds timeout w).2
  pub at_usleep : (n : ℕ) (w : World) → Unmoved b w (os.usleep n w)
  pub at_ended : (w : World) → Unmoved b w (os.ended w).1
  pub at_sem_init : (n : ℕ) (w : World) → Unmoved b w (os.sem_init n w).1
  pub at_sem_wait : (w : World) → Unmoved b w (os.sem_wait w).1
  pub at_sem_post : (w : World) → Unmoved b w (os.sem_post w).1
  pub at_sem_destroy : (w : World) → Unmoved b w (os.sem_destroy w).1

abbrev pub is_in : ℤ → List ℤ → Bool
is_in fd [] = false
is_in fd (x ∷ xs) = (fd ==ℤ x) || is_in fd xs

-- The open descriptors are the read sockets and those that are nobody's.
abbrev pub Accounted : {World : Type 0} → Books World → List ℤ → World → Type 0
Accounted b l w =
    (fd : ℤ) → (b.held fd w ≡ (is_in fd l || b.stray fd w)) × ((is_in fd l && b.stray fd w) ≡ false)

swap : (x y z : Bool) → (x || (y || z)) ≡ (y || (x || z))
swap true true z = refl
swap true false z = refl
swap false y z = refl

twice : (x y : Bool) → (x || (x || y)) ≡ (x || y)
twice true y = refl
twice false y = refl

pub is_in-insert : (fd k : ℤ) (l : List ℤ) → is_in fd (insert k l) ≡ ((fd ==ℤ k) || is_in fd l)
unfolding insert
is_in-insert fd k [] = refl
is_in-insert fd k (x ∷ xs) = elim (Bool-cases (ltb_ℤ k x)) [
  | inl e ↦ rw e refl
  | inr e ↦ elim (Bool-cases (k ==ℤ x)) [
    | inl same ↦ rw (e, same) (rw ((==ℤ_iff k x).0 same) (sym_twice fd x xs))
    | inr other ↦
        rw (e, other)
          (ap (λ c. (fd ==ℤ x) || c) (is_in-insert fd k xs)
            ∙ swap (fd ==ℤ x) (fd ==ℤ k) (is_in fd xs))
  ]
]
  where
    sym_twice :
        (fd x : ℤ) (xs : List ℤ)
        → ((fd ==ℤ x) || is_in fd xs) ≡ ((fd ==ℤ x) || ((fd ==ℤ x) || is_in fd xs))
    sym_twice fd x xs = elim (Bool-cases (fd ==ℤ x)) [ inl e ↦ rw e refl | inr e ↦ rw e refl ]

module _ {World : Type 0} (b : Books World) where
  pub Accounted-Unmoved :
      (l : List ℤ) (w w' : World) → Unmoved b w w' → Accounted b l w → Accounted b l w'
  Accounted-Unmoved l w w' same h fd = rw ((same fd).0, (same fd).1) (h fd)

  -- What closing the first of the sockets and then the others comes to, on the tests of one descriptor.
  pub closed_first : (x y z : Bool) → (not y && (not x && z)) ≡ (not (x || y) && z)
  closed_first true true z = refl
  closed_first true false z = refl
  closed_first false y z = refl

  -- A call that closes what is recorded leaves the books with nothing recorded.
  pub Accounted-closed :
      (l : List ℤ) (w w' : World)
      → ((fd : ℤ)
          → (b.held fd w' ≡ (not (is_in fd l) && b.held fd w)) × (b.stray fd w' ≡ b.stray fd w))
      → Accounted b l w
      → Accounted b [] w'
  Accounted-closed l w w' closes h fd =
      let (closed, s) = closes fd in
      (closed ∙ rw ((h fd).0, s) (rest (is_in fd l) (b.stray fd w) (h fd).1), refl)
    where
      rest : (x y : Bool) → (x && y) ≡ false → (not x && (x || y)) ≡ y
      rest true true e = cc
      rest true false e = refl
      rest false y e = refl

module _ {World Addr : Type 0} (os : Os World Addr) (b : Books World) (ledger : Ledger os b) where
  -- A round neither opens nor closes a socket.
  pub accounted-rounds : (l : List ℤ) → ThroughRounds os (Accounted b l)
  accounted-rounds l = record {
    at_poll = λ fds timeout w h. Accounted-Unmoved b l w _ (ledger.at_poll fds timeout w) h;
    at_recvfrom =
        λ sock room w h. Accounted-Unmoved b l w _ (ledger.on_sockets.at_recvfrom sock room w) h;
    at_sendto = λ sock bytes addr w h.
        Accounted-Unmoved b l w _ (ledger.on_sockets.at_sendto sock bytes addr w) h;
    at_usleep = λ n w h. Accounted-Unmoved b l w _ (ledger.at_usleep n w) h;
    at_ended = λ w h. Accounted-Unmoved b l w _ (ledger.at_ended w) h;
  }

  disconnect_all-closes :
      (l : List ℤ) (w : World) (fd : ℤ)
      → (b.held fd (disconnect_all os l w) ≡ (not (is_in fd l) && b.held fd w))
        × (b.stray fd (disconnect_all os l w) ≡ b.stray fd w)
  unfolding disconnect_all nu_disconnect
  disconnect_all-closes [] w fd = (refl, refl)
  disconnect_all-closes (k ∷ l) w fd =
      let (h, s) = disconnect_all-closes l (os.close k w).1 fd in
      let (h₁, s₁) = ledger.at_close k w fd in
      (h ∙ rw h₁ (closed_first b (fd ==ℤ k) (is_in fd l) (b.held fd w)), s ∙ s₁)

  -- ExitInstance closes the read sockets.
  pub disconnect_all-Accounted :
      (l : List ℤ) (w : World) → Accounted b l w → Accounted b [] (disconnect_all os l w)
  disconnect_all-Accounted l w h =
      Accounted-closed b l w (disconnect_all os l w) (disconnect_all-closes l w) h
