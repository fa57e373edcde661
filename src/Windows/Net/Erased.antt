-- ===== src/Windows/Net/Erased.antt =====
-- ProcessReadEvent of the Windows branch walks m_ReadSockets, and OnReadSocketError of CNetworkThread takes
-- the socket that the iterator stands at out of the set.
use libcastis_heartbeat.Prelude.{
  ℕ, suc, ◌≡◌, ◌≢◌, refl, ap, ◌∙◌, ℤ, pos, ==ℤ_false, ==ℤ_refl, pred_ℤ, true, false, List, ◌∷◌,
  none, some, arith,
}
use libcastis_heartbeat.Prelude.Machine.{>>=-step, >>=-none}
use libcastis_heartbeat.Poll.{invalid_socket}
use libcastis_heartbeat.Net.ReadSockets.{erase}
use libcastis_heartbeat.Windows.Calls.{Win}
use libcastis_heartbeat.Windows.Net.{
  NetworkThread, NetVirtuals, contains, first, fd_set_delete, delete_read_socket, nu_disconnect,
  disable_socket, on_read_socket_error, deref, dispatch_message, serve_socket, count_event, advance,
  is_ready, process_from, process_read_event,
}

module _ {S World FdSet : Type 0} (win : Win World FdSet) (v : NetVirtuals S World FdSet)
    (net-set_net : (t : NetworkThread FdSet) (s : S) → v.net (v.set_net t s) ≡ t)
    (net-set_world : (w : World) (s : S) → v.net (v.set_world w s) ≡ v.net s) where
  -- The members after OnReadSocketError.
  abbrev dropped : ℤ → NetworkThread FdSet → NetworkThread FdSet
  dropped sockfd t = (delete_read_socket win sockfd (fd_set_delete win sockfd t).1).1

  error-lem :
      (sockfd : ℤ) (s : S)
      → sockfd ≢ invalid_socket
      → (s' : S) × (on_read_socket_error win v sockfd s ≡ some (true, s'))
        × (v.net s' ≡ dropped sockfd (v.net s))
  unfolding on_read_socket_error disable_socket
  error-lem sockfd s valid =
      let s₁ = v.set_net (fd_set_delete win sockfd (v.net s)).1 s in
      let s₂ = v.set_world (nu_disconnect win sockfd (v.world s₁)).1 s₁ in
      (
        v.set_net (delete_read_socket win sockfd (v.net s₂)).1 s₂,
        rw (==ℤ_false valid),
        net-set_net _ s₂
            ∙ ap (λ (t : NetworkThread FdSet). (delete_read_socket win sockfd t).1)
                (net-set_world _ s₁ ∙ net-set_net _ s),
      )

  fd_set_delete-valid :
      (k : ℤ) (t : NetworkThread FdSet)
      → k ≢ invalid_socket
      → ((fd_set_delete win k t).1.read_sockets ≡ t.read_sockets)
        × ((fd_set_delete win k t).1.events_count ≡ t.events_count)
  unfolding fd_set_delete
  fd_set_delete-valid k t valid = rw (==ℤ_false valid, fd_set_delete) (refl, refl)

  delete_read_socket-valid :
      (k : ℤ) (t : NetworkThread FdSet)
      → k ≢ invalid_socket
      → (delete_read_socket win k t).1 ≡ record t { read_sockets = erase k t.read_sockets }
  unfolding delete_read_socket
  delete_read_socket-valid k t valid = rw (==ℤ_false valid, delete_read_socket)

  erase-first : (k : ℤ) (rest : List ℤ) → erase k (k ∷ rest) ≡ rest
  unfolding erase
  erase-first k rest = rw (==ℤ_refl k)

  -- The socket has left the set, and the count of the events stays.
  dropped-sockets :
      (k : ℤ) (rest : List ℤ) (t : NetworkThread FdSet)
      → k ≢ invalid_socket
      → t.read_sockets ≡ k ∷ rest
      → (dropped k t).read_sockets ≡ rest
  dropped-sockets k rest t valid e =
      ap (λ (t : NetworkThread FdSet). t.read_sockets)
        (delete_read_socket-valid k (fd_set_delete win k t).1 valid)
      ∙ ap (erase k) ((fd_set_delete-valid k t valid).0 ∙ e)
      ∙ erase-first k rest

  dropped-count :
      (k : ℤ) (t : NetworkThread FdSet)
      → k ≢ invalid_socket
      → (dropped k t).events_count ≡ t.events_count
  dropped-count k t valid =
      ap (λ (t : NetworkThread FdSet). t.events_count)
        (delete_read_socket-valid k (fd_set_delete win k t).1 valid)
      ∙ (fd_set_delete-valid k t valid).1

  deref-lem :
      (k : ℤ) (s : S) → contains k (v.net s).read_sockets ≡ true → deref win v k s ≡ some (k, s)
  unfolding deref
  deref-lem k s e = rw (e, deref)

  contains-first : (k : ℤ) (xs rest : List ℤ) → xs ≡ k ∷ rest → contains k xs ≡ true
  unfolding contains
  contains-first k xs rest e = rw (e, contains) (rw (==ℤ_refl k))

  -- What the class itself does with a socket from which no message comes.
  module _
      (base : (sockfd : ℤ) (s : S)
        → v.on_read_socket_error sockfd s ≡ on_read_socket_error win v sockfd s)
      (k : ℤ) (rest : List ℤ) (n : ℕ) (valid : k ≢ invalid_socket) where
    served :
        (s s₁ : S)
        → v.receive_int_message k s ≡ some (none, s₁)
        → v.net s₁ ≡ v.net s
        → (v.net s).read_sockets ≡ k ∷ rest
        → (s₂ : S) × (serve_socket win v k s ≡ some (tt, s₂)) × (v.net s₂ ≡ dropped k (v.net s))
    unfolding serve_socket dispatch_message
    served s s₁ received same sockets =
        let (s₂, e, is) = error-lem k s₁ valid in
        (
          s₂,
          >>=-step (v.receive_int_message k) _ received
              ∙ >>=-step (deref win v k) _ (
                  deref-lem k s₁ (
                    contains-first k (v.net s₁).read_sockets rest
                      (ap (λ (t : NetworkThread FdSet). t.read_sockets) same ∙ sockets)))
              ∙ >>=-step (v.on_read_socket_error k) _ (base k s₁ ∙ e),
          is ∙ ap (dropped k) same,
        )

    counted :
        (s : S)
        → (v.net s).events_count ≡ pos (suc (suc n))
        → (s' : S) × (count_event win v s ≡ some (false, s'))
          × ((v.net s').read_sockets ≡ (v.net s).read_sockets)
    unfolding count_event
    counted s e = (
      v.set_net (record (v.net s) { events_count = pred_ℤ (v.net s).events_count }) s,
      rw (net-set_net, e) (ground arith),
      ap (λ (t : NetworkThread FdSet). t.read_sockets) (net-set_net _ s),
    )

    advance-none : (s : S) → contains k (v.net s).read_sockets ≡ false → advance win v k s ≡ none
    unfolding advance
    advance-none s gone = rw (gone, advance)

    is_ready-lem :
        (s : S) → win.fd_isset k (v.net s).fd_set_read ≡ true → is_ready win v k s ≡ some (true, s)
    unfolding is_ready
    is_ready-lem s e = rw (==ℤ_false valid, e, is_ready)

    process_from-none :
        (fuel : ℕ) (s s₁ : S)
        → (v.net s).read_sockets ≡ k ∷ rest
        → contains k rest ≡ false
        → win.fd_isset k (v.net s).fd_set_read ≡ true
        → (v.net s).events_count ≡ pos (suc (suc n))
        → v.receive_int_message k s ≡ some (none, s₁)
        → v.net s₁ ≡ v.net s
        → process_from win v (suc fuel) (some k) s ≡ none
    unfolding process_from
    process_from-none fuel s s₁ sockets once ready events received same =
        let (s₂, e₂, is₂) = served s s₁ received same sockets in
        let (s₃, e₃, is₃) = counted s₂ (
          ap (λ (t : NetworkThread FdSet). t.events_count) is₂
          ∙ dropped-count k (v.net s) valid
          ∙ events) in
        let now : (v.net s₃).read_sockets ≡ rest =
          is₃
          ∙ ap (λ (t : NetworkThread FdSet). t.read_sockets) is₂
          ∙ dropped-sockets k rest (v.net s) valid sockets in
        >>=-step (is_ready win v k) _ (is_ready-lem s ready)
        ∙ >>=-step (serve_socket win v k) _ e₂
        ∙ >>=-step (count_event win v) _ e₃
        ∙ >>=-none (advance win v k) _ (advance-none s₃ (ap (contains k) now ∙ once))

    -- With OnReadSocketError as CNetworkThread has it, ProcessReadEvent on Windows uses an iterator that is no
    -- longer valid, which is undefined, for every number of steps: if the first read socket is a valid one that
    -- select has found ready, more than one event is counted, and no message comes from the socket.
    pub process_read_event-erased :
        (fuel : ℕ) (s s₁ : S)
        → (v.net s).read_sockets ≡ k ∷ rest
        → contains k rest ≡ false
        → win.fd_isset k (v.net s).fd_set_read ≡ true
        → (v.net s).events_count ≡ pos (suc (suc n))
        → v.receive_int_message k s ≡ some (none, s₁)
        → v.net s₁ ≡ v.net s
        → process_read_event win v (suc fuel) s ≡ none
    unfolding process_read_event first
    process_read_event-erased fuel s s₁ sockets once ready events received same =
        >>=-none (process_from win v (suc fuel) (first (v.net s).read_sockets)) _ (
          first-lem (v.net s).read_sockets sockets
            (process_from-none fuel s s₁ sockets once ready events received same))
      where
        first-lem :
            (xs : List ℤ)
            → xs ≡ k ∷ rest
            → process_from win v (suc fuel) (some k) s ≡ none
            → process_from win v (suc fuel) (first xs) s ≡ none
        first-lem xs e h = rw (ap first e) h
