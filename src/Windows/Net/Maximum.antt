-- ===== src/Windows/Net/Maximum.antt =====
-- m_iMaximumSocket bounds the sockets of m_fdSetAllRead, although FDSetDelete does not search for the next
-- smaller one.
use libcastis_heartbeat.Prelude.{
  ℕ, zero, suc, ◌≡◌, ◌≢◌, inl, inr, refl, ap, ℤ, pos, negsuc, ◌==ℤ◌, ltb_ℤ, pred_ℤ, true, false,
  Bool-cases, arith,
}
use libcastis_heartbeat.Poll.{invalid_socket}
use libcastis_heartbeat.Windows.Calls.{Win}
use libcastis_heartbeat.Windows.Net.{
  NetworkThread, new_network_thread, fd_set_add, fd_set_delete, cleared,
}

ltb_refl : (a : ℤ) → ltb_ℤ a a ≡ false
ltb_refl (pos a) = ground arith
ltb_refl (negsuc a) = ground arith

-- a ≤ m < s
below : (m s a : ℤ) → ltb_ℤ m s ≡ true → ltb_ℤ m a ≡ false → ltb_ℤ s a ≡ false
below (pos m) (pos s) (pos a) h k = ground arith
below (pos m) (pos s) (negsuc a) h k = ground arith
below (negsuc m) (pos s) (pos a) h k = ground arith
below (negsuc m) (pos s) (negsuc a) h k = ground arith
below (negsuc m) (negsuc s) (negsuc a) h k = ground arith
below (negsuc m) (negsuc s) (pos a) h k = ground arith
below (pos m) (negsuc s) a h k = cc

-- a ≤ m ≤ s and a is not s
pos-ne : (a s : ℕ) → pos a ≢ pos s → a ≢ s
pos-ne a s ne e = ne (ap pos e)

negsuc-ne : (a s : ℕ) → negsuc a ≢ negsuc s → a ≢ s
negsuc-ne a s ne e = ne (ap negsuc e)

under : (m s a : ℤ) → ltb_ℤ s m ≡ false → ltb_ℤ m a ≡ false → a ≢ s → ltb_ℤ (pred_ℤ s) a ≡ false
under (pos m) (pos zero) (pos a) h k ne = ground (arith, pos-ne a 0 ne)
under (pos m) (pos (suc s)) (pos a) h k ne = ground (arith, pos-ne a (suc s) ne)
under (pos m) (pos zero) (negsuc a) h k ne = ground arith
under (pos m) (pos (suc s)) (negsuc a) h k ne = refl
under (pos m) (negsuc s) a h k ne = cc
under (negsuc m) s (pos a) h k ne = cc
under (negsuc m) (pos zero) (negsuc a) h k ne = ground arith
under (negsuc m) (pos (suc s)) (negsuc a) h k ne = refl
under (negsuc m) (negsuc s) (negsuc a) h k ne = ground (arith, negsuc-ne a s ne)

module _ {World FdSet : Type 0} (win : Win World FdSet) where
  -- No socket of the set is above the maximum.
  abbrev pub IsMaximum : NetworkThread FdSet → Type 0
  IsMaximum t = (a : ℤ) → win.fd_isset a t.fd_set_all_read ≡ true → ltb_ℤ t.maximum_socket a ≡ false

  -- The operations on the set.
  pub data Step (t : NetworkThread FdSet) : NetworkThread FdSet → Type 0 where
    adds : {t' : NetworkThread FdSet} (sockfd : ℤ) → t' ≡ (fd_set_add win sockfd t).1 → Step t t'
    deletes :
        {t' : NetworkThread FdSet} (sockfd : ℤ) → t' ≡ (fd_set_delete win sockfd t).1 → Step t t'
    clears : {t' : NetworkThread FdSet} → t' ≡ cleared win t → Step t t'

  -- What they make of a new object, in any order.
  pub data Reach (timeout : ℤ) : NetworkThread FdSet → Type 0 where
    built : {t : NetworkThread FdSet} → t ≡ new_network_thread win timeout → Reach timeout t
    later : {t t' : NetworkThread FdSet} → Reach timeout t → Step t t' → Reach timeout t'

  fd_set_add-IsMaximum :
      (sockfd : ℤ) (t : NetworkThread FdSet) → IsMaximum t → IsMaximum (fd_set_add win sockfd t).1
  unfolding fd_set_add
  fd_set_add-IsMaximum sockfd t h = elim (Bool-cases (sockfd ==ℤ invalid_socket)) [
    | inl e ↦ rw e h
    | inr e ↦ elim (Bool-cases (ltb_ℤ t.maximum_socket sockfd)) [
      | inl above ↦
          rw (e, above)
            λ a isset. elim (win.isset-set a sockfd t.fd_set_all_read isset) [
              | inl new ↦ rw new (ltb_refl sockfd)
              | inr old ↦ below t.maximum_socket sockfd a above (h a old)
            ]
      | inr within ↦
          rw (e, within)
            λ a isset. elim (win.isset-set a sockfd t.fd_set_all_read isset) [
              | inl new ↦ rw new within
              | inr old ↦ h a old
            ]
    ]
  ]

  fd_set_delete-IsMaximum :
      (sockfd : ℤ) (t : NetworkThread FdSet)
      → IsMaximum t
      → IsMaximum (fd_set_delete win sockfd t).1
  unfolding fd_set_delete
  fd_set_delete-IsMaximum sockfd t h = elim (Bool-cases (sockfd ==ℤ invalid_socket)) [
    | inl e ↦ rw e h
    | inr e ↦ elim (Bool-cases (ltb_ℤ sockfd t.maximum_socket)) [
      | inl smaller ↦
          rw (e, smaller) λ a isset. h a (win.isset-clr a sockfd t.fd_set_all_read isset).1
      | inr top ↦
          rw (e, top)
            λ a isset.
              let (ne, old) = win.isset-clr a sockfd t.fd_set_all_read isset in
              under t.maximum_socket sockfd a top (h a old) ne
    ]
  ]

  empty-IsMaximum : (m : ℤ) (a : ℤ) → win.fd_isset a win.fd_zero ≡ true → ltb_ℤ m a ≡ false
  empty-IsMaximum m a isset = cc (win.isset-zero a)

  -- However FDSetAdd, FDSetDelete and ExitInstance follow each other, on whatever sockets, no socket of
  -- m_fdSetAllRead is above m_iMaximumSocket: select, which is given that number and one, looks at all of
  -- them.
  pub Reach-IsMaximum : (timeout : ℤ) (t : NetworkThread FdSet) → Reach timeout t → IsMaximum t
  unfolding cleared new_network_thread
  Reach-IsMaximum timeout t (built e) = rw e (empty-IsMaximum invalid_socket)
  Reach-IsMaximum timeout t (later {t = u} r (adds sockfd e)) =
      rw e (fd_set_add-IsMaximum sockfd u (Reach-IsMaximum timeout u r))
  Reach-IsMaximum timeout t (later {t = u} r (deletes sockfd e)) =
      rw e (fd_set_delete-IsMaximum sockfd u (Reach-IsMaximum timeout u r))
  Reach-IsMaximum timeout t (later {t = u} r (clears e)) = rw e (empty-IsMaximum invalid_socket)
