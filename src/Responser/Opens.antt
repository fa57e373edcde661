-- ===== src/Responser/Opens.antt =====
-- What the calls of InitInstance do to the open sockets, on both systems.
use libcastis_heartbeat.Prelude.{
  ℕ, ◌≡◌, refl, sym, ◌∙◌, ap, Bool, Bool-cases, inl, inr, true, false, ◌&&◌, ◌||◌, ℤ, negsuc, ◌==ℤ◌,
  ==ℤ_iff, is_negative, List,
}
use libcastis_heartbeat.Os.{Sockets}
use libcastis_heartbeat.Net.ReadSockets.{insert}
use libcastis_heartbeat.Responser.Ledger.{
  Books, SocketsLedger, Accounted, Accounted-Unmoved, is_in, is_in-insert,
}

-- As Accounted, but for a new socket that is not recorded yet.
abbrev Loose : {World : Type 0} → Books World → ℤ → List ℤ → World → Type 0
Loose b k l w =
    (fd : ℤ)
    → (b.held fd w ≡ ((fd ==ℤ k) || (is_in fd l || b.stray fd w)))
      × ((is_in fd l && b.stray fd w) ≡ false)
      × (((fd ==ℤ k) && (is_in fd l || b.stray fd w)) ≡ false)

-- The steps of the books, on the four tests of one descriptor.
lost :
    (k l s : Bool)
    → (l && s) ≡ false
    → (k && (l || s)) ≡ false
    → ((k || (l || s)) ≡ (l || ((k && true) || s))) × ((l && ((k && true) || s)) ≡ false)
lost true true s e f = cc
lost true false s e f = (refl, refl)
lost false l s e f = (refl, e)

pub kept : (k s : Bool) → ((k && false) || s) ≡ s
kept true s = refl
kept false s = refl

recorded :
    (k l s : Bool)
    → (l && s) ≡ false
    → (k && (l || s)) ≡ false
    → ((k || (l || s)) ≡ ((k || l) || s)) × (((k || l) && s) ≡ false)
recorded true true s e f = cc
recorded true false s e f = (refl, f)
recorded false l s e f = (refl, e)

module _ {World : Type 0} (b : Books World) (k : ℤ) (l : List ℤ) where
  -- From a world to one after a call on the socket that has answered with `failed`.
  abbrev Charged : Bool → World → World → Type 0
  Charged failed w w' =
      (fd : ℤ)
      → (b.held fd w' ≡ b.held fd w) × (b.stray fd w' ≡ ((fd ==ℤ k) && failed || b.stray fd w))

  Loose-lost : (w w' : World) → Charged true w w' → Loose b k l w → Accounted b l w'
  Loose-lost w w' c h fd =
      let (held, apart, new) = h fd in
      rw ((c fd).0, (c fd).1, held) (lost (fd ==ℤ k) (is_in fd l) (b.stray fd w) apart new)

  Loose-kept : (w w' : World) → Charged false w w' → Loose b k l w → Loose b k l w'
  Loose-kept w w' c h fd = rw ((c fd).0, (c fd).1 ∙ kept (fd ==ℤ k) (b.stray fd w)) (h fd)

  Loose-recorded : (w : World) → Loose b k l w → Accounted b (insert k l) w
  Loose-recorded w h fd =
      let (held, apart, new) = h fd in
      rw (is_in-insert fd k l, held) (recorded (fd ==ℤ k) (is_in fd l) (b.stray fd w) apart new)

module _ {World Addr : Type 0} (sockets : Sockets World Addr) (b : Books World)
    (ledger : SocketsLedger sockets b) (port : ℕ) (l : List ℤ) (w : World)
    (accounted : Accounted b l w) where
  -- The socket that InitInstance makes, and the calls on it.
  abbrev socket_of : ℤ
  socket_of = (sockets.socket w).0

  abbrev reuse : ℤ × World
  reuse = sockets.set_reuse_addr socket_of 1 (sockets.socket w).1

  abbrev bound : ℤ × World
  bound = sockets.bind socket_of port reuse.1

  pub after_no_socket : is_negative socket_of ≡ true → Accounted b l (sockets.socket w).1
  after_no_socket e = Accounted-Unmoved b l w _ (ledger.at_no_socket w e) accounted

  module _ (valid : is_negative socket_of ≡ false) where
    created : Loose b socket_of l (sockets.socket w).1
    created fd =
        let (held, stray) = ledger.at_socket w valid fd in
        rw (held, stray, (accounted fd).0) (refl, (accounted fd).1, new)
      where
        new : ((fd ==ℤ socket_of) && (is_in fd l || b.stray fd w)) ≡ false
        new = elim (Bool-cases (fd ==ℤ socket_of)) [
          | inl e ↦ rw e (
              sym (accounted fd).0
              ∙ ap (λ k. b.held k w) ((==ℤ_iff fd socket_of).0 e)
              ∙ ledger.fresh w valid)
          | inr e ↦ rw e refl
        ]

    reuse-Charged :
        (r : Bool)
        → (reuse.0 ==ℤ negsuc 0) ≡ r
        → Charged b socket_of l r (sockets.socket w).1 reuse.1
    reuse-Charged r e fd = rw e at (ledger.at_reuse socket_of 1 (sockets.socket w).1 fd)

    bind-Charged : (r : Bool) → is_negative bound.0 ≡ r → Charged b socket_of l r reuse.1 bound.1
    bind-Charged r e fd = rw e at (ledger.at_bind socket_of port reuse.1 fd)

    pub after_reuse : (reuse.0 ==ℤ negsuc 0) ≡ true → Accounted b l reuse.1
    after_reuse e = Loose-lost b socket_of l _ _ (reuse-Charged _ e) created

    module _ (reused : (reuse.0 ==ℤ negsuc 0) ≡ false) where
      loose : Loose b socket_of l reuse.1
      loose = Loose-kept b socket_of l _ _ (reuse-Charged _ reused) created

      pub after_bind : is_negative bound.0 ≡ true → Accounted b l bound.1
      after_bind e = Loose-lost b socket_of l _ _ (bind-Charged _ e) loose

      pub after_all : is_negative bound.0 ≡ false → Accounted b (insert socket_of l) bound.1
      after_all e =
          Loose-recorded b socket_of l _ (Loose-kept b socket_of l _ _ (bind-Charged _ e) loose)
