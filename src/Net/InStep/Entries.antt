-- ===== src/Net/InStep/Entries.antt =====
-- Changes of the entries of m_PollFds that leave their sockets alone: poll and ProcessReadEvent.
use libcastis_heartbeat.Prelude.{
  ℕ, zero, suc, ◌-◌, ◌≤◌, ◌≡◌, ◌≢◌, refl, ap, sym, subst, ◌∙◌, ℤ, List, [], ◌∷◌, ◌++◌, map, length,
  set, get_or, replicate, All, arith,
}
use libcastis_heartbeat.Poll.{Pollfd, PollTable, invalid_socket, max_fd_size, empty_pollfd}
use libcastis_heartbeat.Poll.Bag.{occurrences}
use libcastis_heartbeat.Net.{NetworkThread, set_revents}
use libcastis_heartbeat.Net.Bounds.{cleared_table}
use libcastis_heartbeat.Net.InStep.{copies, InStep}

-- A change of the entries that keeps their sockets.
kept-occurrences :
    (x : ℤ) (ps qs : List Pollfd)
    → map (λ p. p.fd) ps ≡ map (λ p. p.fd) qs
    → occurrences x ps ≡ occurrences x qs
kept-occurrences x ps qs e = occurrences-fds x ps ∙ ap (copies x) e ∙ sym (occurrences-fds x qs)
  where
    occurrences-fds : (x : ℤ) (ps : List Pollfd) → occurrences x ps ≡ copies x (map (λ p. p.fd) ps)
    occurrences-fds x [] = refl
    occurrences-fds x (p ∷ ps) = rw (occurrences-fds x ps)

All-map :
    (P : ℤ → Type 0) (ps : List Pollfd)
    → (All (λ p. P p.fd) ps → All P (map (λ p. p.fd) ps))
      × (All P (map (λ p. p.fd) ps) → All (λ p. P p.fd) ps)
All-map P [] = (λ h. h, λ h. h)
All-map P (p ∷ ps) = (λ h. (h.0, (All-map P ps).0 h.1), λ h. (h.0, (All-map P ps).1 h.1))

length-map_fd : (ps : List Pollfd) → length (map (λ p. p.fd) ps) ≡ length ps
length-map_fd [] = refl
length-map_fd (p ∷ ps) = ap suc (length-map_fd ps)

kept-InStep :
    (used' : List Pollfd) (t : NetworkThread) (fds : List Pollfd) (h : InStep t)
    → map (λ p. p.fd) used' ≡ map (λ p. p.fd) h.used
    → fds ≡ used' ++ replicate (max_fd_size - length h.used) empty_pollfd
    → InStep (record t { table = record (t.table) { poll_fds = fds } })
kept-InStep used' t fds h e is = record {
  used = used';
  table = record {
    shape = λ i. record { poll_fds = placed i; poll_fd_count = counted i };
    bounded = omega (arith, size, h.table.bounded);
    live =
        (All-map (λ x. x ≢ invalid_socket) used').1
          (rw e ((All-map (λ x. x ≢ invalid_socket) h.used).0 h.table.live));
  };
  same = λ x. kept-occurrences x used' h.used e ∙ h.same x;
  once = h.once;
}
  where
    size : length used' ≡ length h.used
    size = sym (length-map_fd used') ∙ ap length e ∙ length-map_fd h.used

    placed : fds ≡ used' ++ replicate (max_fd_size - length used') empty_pollfd
    placed = is ∙ ap (λ n. used' ++ replicate (max_fd_size - n) empty_pollfd) (sym size)

    counted : t.table.poll_fd_count ≡ length used'
    counted = ap (λ (u : PollTable). u.poll_fd_count) h.table.shape ∙ sym size

-- The result of one entry cleared.
abbrev clear_at : ℕ → List Pollfd → List Pollfd
clear_at i ps = set ps i (record (get_or ps i empty_pollfd) { revents = 0 })

clear_at-fds : (i : ℕ) (ps : List Pollfd) → map (λ p. p.fd) (clear_at i ps) ≡ map (λ p. p.fd) ps
clear_at-fds i [] = refl
clear_at-fds zero (p ∷ ps) = refl
clear_at-fds (suc i) (p ∷ ps) = ap (◌∷◌ p.fd) (clear_at-fds i ps)

clear_at-free : (i n : ℕ) → clear_at i (replicate n empty_pollfd) ≡ replicate n empty_pollfd
clear_at-free i zero = refl
clear_at-free zero (suc n) = refl
clear_at-free (suc i) (suc n) = ap (◌∷◌ empty_pollfd) (clear_at-free i n)

clear_at-append :
    (i n : ℕ) (ps : List Pollfd)
    → clear_at i (ps ++ replicate n empty_pollfd) ≡ clear_at i ps ++ replicate n empty_pollfd
clear_at-append i n [] = clear_at-free i n
clear_at-append zero n (p ∷ ps) = refl
clear_at-append (suc i) n (p ∷ ps) = ap (◌∷◌ p) (clear_at-append i n ps)

pub cleared_table-InStep :
    (i : ℕ) (t : NetworkThread) → InStep t → InStep (record t { table = cleared_table i t.table })
cleared_table-InStep i t h =
    kept-InStep (clear_at i h.used) t (clear_at i t.table.poll_fds) h (clear_at-fds i h.used) (
      ap (λ (u : PollTable). clear_at i u.poll_fds) h.table.shape
      ∙ clear_at-append i (max_fd_size - length h.used) h.used)

-- The results of poll.
set_revents-fds :
    (rs : List ℕ) (ps : List Pollfd) → map (λ p. p.fd) (set_revents rs ps) ≡ map (λ p. p.fd) ps
unfolding set_revents
set_revents-fds [] ps = refl
set_revents-fds (r ∷ rs) [] = refl
set_revents-fds (r ∷ rs) (p ∷ ps) = ap (◌∷◌ p.fd) (set_revents-fds rs ps)

set_revents-append :
    (rs : List ℕ) (ps qs : List Pollfd)
    → length rs ≤ length ps
    → set_revents rs (ps ++ qs) ≡ set_revents rs ps ++ qs
unfolding set_revents
set_revents-append [] ps qs h = refl
set_revents-append (r ∷ rs) [] qs h = absurd (omega (arith, h))
set_revents-append (r ∷ rs) (p ∷ ps) qs h =
    ap (◌∷◌ (record p { revents = r })) (set_revents-append rs ps qs (omega (arith, h)))

pub set_revents-InStep :
    (rs : List ℕ) (t : NetworkThread)
    → InStep t
    → length rs ≤ t.table.poll_fd_count
    → InStep (record t { table = record (t.table) { poll_fds = set_revents rs t.table.poll_fds } })
set_revents-InStep rs t h le =
    kept-InStep (set_revents rs h.used) t (set_revents rs t.table.poll_fds) h
      (set_revents-fds rs h.used)
      (ap (λ (u : PollTable). set_revents rs u.poll_fds) h.table.shape
        ∙ set_revents-append rs h.used _
            (subst (λ (u : PollTable). length rs ≤ u.poll_fd_count) h.table.shape le))
