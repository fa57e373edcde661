-- ===== src/Windows/Net/Keeps.antt =====
-- What the rounds of the network thread on Windows do to the thread that they are part of: nothing, but
-- for the exit flag that another thread sets.
use libcastis_heartbeat.Prelude.{
  by_test, ℕ, zero, suc, ◌≡◌, refl, ap, ◌∙◌, ℤ, pos, Bool, true, false, not, ◌&&◌, if◌then◌else◌,
  Option, none, some, ◌==◌, is_negative, is_positive, pred_ℤ, ◌==ℤ◌,
}
use libcastis_heartbeat.Poll.{invalid_socket}
use libcastis_heartbeat.Prelude.Machine.{
  M, pure, when, ◌>>=◌, ◌>>◌, gets, Post, returns, fails, Post->>=, Post-mono,
}
use libcastis_heartbeat.Thread.{end_thread, set_exit, read_exit}
use libcastis_heartbeat.Thread.Laws.{Keeps, Keeps-trans}
use libcastis_heartbeat.Net.Keeps.{Keeps-refl, Keeps-eq}
use libcastis_heartbeat.Windows.Calls.{Win}
use libcastis_heartbeat.Windows.Net.{
  NetworkThread, NetVirtuals, cleared, contains, next_after, system_, update_net, thread_access,
  exit_instance, msleep, select_read, wait_network_event, deref, dispatch_message, serve_socket,
  count_event, advance, is_ready, process_from, process_read_event, first, run, disconnect_all,
  succ_ℤ, quot_1000, rem_1000_times_1000,
}

module _ {S World FdSet : Type 0} (v : NetVirtuals S World FdSet) where
  abbrev pub Stays : {A : Type 0} → M S A → Type 0
  Stays m = (s : S) → Post (Unit {0}) (λ _ s'. Keeps (v.net s).base (v.net s').base) (m s)

-- What the class around the network thread promises of what it overrides.
pub record NetLaws {S World FdSet : Type 0} (v : NetVirtuals S World FdSet) : Type 0 where
  pub net-set_net : (t : NetworkThread FdSet) (s : S) → v.net (v.set_net t s) ≡ t
  pub net-set_world : (w : World) (s : S) → v.net (v.set_world w s) ≡ v.net s
  pub on_receive : (sockfd : ℤ) → Stays v (v.receive_int_message sockfd)
  pub on_message : (sockfd : ℤ) (m : ℕ) → Stays v (v.on_message sockfd m)
  pub on_error : (sockfd : ℤ) → Stays v (v.on_read_socket_error sockfd)

module _ {S World FdSet : Type 0} (win : Win World FdSet) (v : NetVirtuals S World FdSet)
    (laws : NetLaws v) where
  Stays-then :
      {A B : Type 0} (m : M S A) (f : A → M S B)
      → Stays v m
      → ((a : A) → Stays v (f a))
      → Stays v (m >>= f)
  Stays-then m f h k s =
      Post->>= m f s (h s) λ a s₁ k₁. Post-mono (k a s₁) λ _ s₂ k₂. Keeps-trans k₁ k₂

  Stays-when : (b : Bool) (m : M S (Unit {0})) → Stays v m → Stays v (when b m)
  Stays-when true m h s = h s
  Stays-when false m h s = returns (Keeps-refl _)

  pure-Stays : {A : Type 0} (a : A) → Stays v (pure a)
  pure-Stays a s = returns (Keeps-refl _)

  gets-Stays : {A : Type 0} (f : S → A) → Stays v (gets f)
  gets-Stays f s = returns (Keeps-refl _)

  system_-Stays : (f : World → World) → Stays v (system_ win v f)
  system_-Stays f s =
      returns (Keeps-eq (ap (λ (t : NetworkThread FdSet). t.base) (laws.net-set_world _ s)))

  update_net-Stays :
      (f : NetworkThread FdSet → NetworkThread FdSet)
      → ((t : NetworkThread FdSet) → (f t).base ≡ t.base)
      → Stays v (update_net win v f)
  update_net-Stays f h s =
      returns
        (Keeps-eq (ap (λ (t : NetworkThread FdSet). t.base) (laws.net-set_net _ s) ∙ h (v.net s)))

  end_thread-Stays : Stays v (end_thread (thread_access win v))
  unfolding end_thread set_exit
  end_thread-Stays s = returns (record {
    state = ap (λ (t : NetworkThread FdSet). t.base.state) (laws.net-set_net _ s);
    handle = ap (λ (t : NetworkThread FdSet). t.base.handle) (laws.net-set_net _ s);
    exit = λ _. ap (λ (t : NetworkThread FdSet). t.base.exit) (laws.net-set_net _ s);
  })

  others-Stays : Stays v ((thread_access win v).others)
  others-Stays s =
      returns (Keeps-eq (ap (λ (t : NetworkThread FdSet). t.base) (laws.net-set_world _ s)))

  read_exit-Stays : Stays v (read_exit (thread_access win v))
  unfolding read_exit
  read_exit-Stays = Stays-then (thread_access win v).others _ others-Stays λ called.
      Stays-then (when called (end_thread (thread_access win v))) _
        (Stays-when called _ end_thread-Stays) λ _. gets-Stays (λ s. (v.net s).base.exit)

  pub exit_instance-Stays : Stays v (exit_instance win v)
  unfolding exit_instance cleared
  exit_instance-Stays =
      Stays-then (gets (λ s. (v.net s).read_sockets)) _ (gets-Stays (λ s. (v.net s).read_sockets))
        λ sockets.
          Stays-then (system_ win v (disconnect_all win sockets)) _
            (system_-Stays (disconnect_all win sockets))
            λ _.
              Stays-then (update_net win v (cleared win)) _
                (update_net-Stays (cleared win) λ t. refl) λ _. pure-Stays true

  counted-Stays :
      (n : ℤ) (b : Bool)
      → Stays v (update_net win v (λ t. record t { events_count = n }) >>= λ _. pure b)
  counted-Stays n b =
      Stays-then (update_net win v (λ t. record t { events_count = n })) _
        (update_net-Stays (λ t. record t { events_count = n }) λ t. refl) λ _. pure-Stays b

  -- The branches of the test of select's result.
  after_select :
      (t : NetworkThread FdSet) (count : ℤ) (failed interrupted : Bool)
      → Stays v (
          if failed
          then (if interrupted
              then (do update_net win v (λ t. record t { events_count = pos 0 }); pure false)
              else (do
                system_ win v (msleep win t.timeout_millisec)
                update_net win v (λ t. record t { events_count = count })
                pure true))
          else (do update_net win v (λ t. record t { events_count = count }); pure true))
  after_select t count true true = counted-Stays (pos 0) false
  after_select t count true false =
      Stays-then (system_ win v (msleep win t.timeout_millisec)) _
        (system_-Stays (msleep win t.timeout_millisec)) λ _. counted-Stays count true
  after_select t count false interrupted = counted-Stays count true

  select_read-Stays : Stays v (select_read win v)
  unfolding select_read
  select_read-Stays =
      Stays-then (update_net win v (λ t. record t { fd_set_read = t.fd_set_all_read })) _
        (update_net-Stays (λ t. record t { fd_set_read = t.fd_set_all_read }) λ t. refl)
        λ _. Stays-then (gets v.net) _ (gets-Stays v.net) λ t.
          Stays-then (gets v.world) _ (gets-Stays v.world) λ w.
            let r =
              win.select (succ_ℤ t.maximum_socket) t.fd_set_read (quot_1000 t.timeout_millisec)
                (rem_1000_times_1000 t.timeout_millisec) w in
            Stays-then (system_ win v (λ _. r.2)) _ (system_-Stays (λ _. r.2)) λ _.
              Stays-then (update_net win v (λ t. record t { fd_set_read = r.1 })) _
                (update_net-Stays (λ t. record t { fd_set_read = r.1 }) λ t. refl)
                λ _. pure-Stays r.0

  wait_network_event-Stays : Stays v (wait_network_event win v)
  unfolding wait_network_event
  wait_network_event-Stays = Stays-then (select_read win v) _ select_read-Stays λ count.
      Stays-then (gets v.world) _ (gets-Stays v.world) λ w.
        Stays-then (gets v.net) _ (gets-Stays v.net)
          λ t. after_select t count (is_negative count) (win.errno w == win.eintr)

  deref-Stays : (k : ℤ) → Stays v (deref win v k)
  unfolding deref
  deref-Stays k s = found (contains k (v.net s).read_sockets)
    where
      found :
          (b : Bool)
          → Post
              (Unit {0})
              (λ _ s'. Keeps (v.net s).base (v.net s').base)
              (if b then some (k, s) else none)
      found true = returns (Keeps-refl _)
      found false = fails tt

  error-Stays : (k : ℤ) → Stays v (v.on_read_socket_error k >>= λ _. pure tt)
  error-Stays k = Stays-then (v.on_read_socket_error k) _ (laws.on_error k) λ _. pure-Stays tt

  dispatch_message-Stays : (k : ℤ) (m : Option ℕ) → Stays v (dispatch_message win v k m)
  unfolding dispatch_message
  dispatch_message-Stays k none = Stays-then (deref win v k) _ (deref-Stays k) λ x. error-Stays x
  dispatch_message-Stays k (some m) = Stays-then (deref win v k) _ (deref-Stays k) λ x.
      Stays-then (v.on_message x m) _ (laws.on_message x m) λ handled.
        Stays-when (not handled) _ (Stays-then (deref win v k) _ (deref-Stays k) λ y. error-Stays y)

  serve_socket-Stays : (k : ℤ) → Stays v (serve_socket win v k)
  unfolding serve_socket
  serve_socket-Stays k =
      Stays-then (v.receive_int_message k) _ (laws.on_receive k) λ m. dispatch_message-Stays k m

  count_event-Stays : Stays v (count_event win v)
  unfolding count_event
  count_event-Stays =
      Stays-then (update_net win v (λ t. record t { events_count = pred_ℤ t.events_count })) _
        (update_net-Stays (λ t. record t { events_count = pred_ℤ t.events_count }) λ t. refl)
        λ _. gets-Stays (λ s. not (is_positive (v.net s).events_count))

  advance-Stays : (k : ℤ) → Stays v (advance win v k)
  unfolding advance
  advance-Stays k s = found (contains k (v.net s).read_sockets)
    where
      found :
          (b : Bool)
          → Post
              (Unit {0})
              (λ _ s'. Keeps (v.net s).base (v.net s').base)
              (if b then some (next_after k (v.net s).read_sockets, s) else none)
      found true = returns (Keeps-refl _)
      found false = fails tt

  is_ready-Stays : (k : ℤ) → Stays v (is_ready win v k)
  unfolding is_ready
  is_ready-Stays k =
      gets-Stays λ s. not (k ==ℤ invalid_socket) && win.fd_isset k (v.net s).fd_set_read

  process_from-Stays : (fuel : ℕ) (next : Option ℤ) → Stays v (process_from win v fuel next)
  unfolding process_from
  process_from-Stays fuel none s = returns (Keeps-refl _)
  process_from-Stays zero (some k) s = fails tt
  process_from-Stays (suc fuel) (some k) s =
      Stays-then (is_ready win v k) _ (is_ready-Stays k)
        (λ ready.
          let onward =
            Stays-then (advance win v k) _ (advance-Stays k) λ x. process_from-Stays fuel x in
          by_test (Stays v) (not ready) _ _ onward (
            Stays-then (serve_socket win v k) _ (serve_socket-Stays k) λ _.
              Stays-then (count_event win v) _ count_event-Stays
                λ last. by_test (Stays v) last (pure tt) _ (pure-Stays tt) onward))
        s

  process_read_event-Stays : (fuel : ℕ) → Stays v (process_read_event win v fuel)
  unfolding process_read_event
  process_read_event-Stays fuel =
      Stays-then (gets (λ s. first (v.net s).read_sockets)) _
        (gets-Stays (λ s. first (v.net s).read_sockets))
        λ start.
          Stays-then (process_from win v fuel start) _ (process_from-Stays fuel start)
            λ _. pure-Stays true

  pub run-Stays : (fuel : ℕ) → Stays v (run win v fuel)
  unfolding run
  run-Stays fuel = Stays-then (read_exit (thread_access win v)) _ read_exit-Stays λ ending.
      Stays-then (when (not ending) _) _
        (Stays-when (not ending) _ (
          Stays-then (wait_network_event win v) _ wait_network_event-Stays λ waited.
            Stays-when waited _ (
              Stays-then (read_exit (thread_access win v)) _ read_exit-Stays λ ending₁.
                Stays-then (gets (λ s. (v.net s).events_count)) _
                  (gets-Stays (λ s. (v.net s).events_count))
                  λ count. Stays-when (not ending₁ && is_positive count) _ (
                    Stays-then (process_read_event win v fuel) _ (process_read_event-Stays fuel)
                      λ _. pure-Stays tt))))
        λ _. pure-Stays true
