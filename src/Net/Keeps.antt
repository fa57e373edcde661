-- ===== src/Net/Keeps.antt =====
-- What the network thread's rounds do to the thread that they are part of: nothing, but for the exit
-- flag that another thread sets.
use libcastis_heartbeat.Prelude.{
  ℕ, zero, suc, ◌+◌, ◌≡◌, refl, ap, ◌∙◌, ℤ, pos, Bool, true, false, not, ◌&&◌, if◌then◌else◌,
  Option, none, some, ltb, get_or, ◌==◌, is_negative, is_positive,
}
use libcastis_heartbeat.Prelude.Machine.{
  M, pure, when, ◌>>=◌, ◌>>◌, Post, returns, fails, Post->>=, Post-mono,
}
use libcastis_heartbeat.Poll.{PollBits, empty_pollfd, max_fd_size}
use libcastis_heartbeat.Thread.{Thread, end_thread, set_exit, read_exit}
use libcastis_heartbeat.Thread.Laws.{Keeps, Keeps-trans}
use libcastis_heartbeat.Os.{Os}
use libcastis_heartbeat.Net.Parts.{served, waited_for}
use libcastis_heartbeat.Net.{
  NetworkThread, NetVirtuals, system_, update_net, set_table, thread_access, poll_table,
  set_revents, exit_instance, msleep, wait_network_event, fd_at, dispatch_message, clear_revents,
  serve_entry, count_event, is_ready, process_from, process_read_event, run,
}

pub Keeps-refl : (t : Thread) → Keeps t t
Keeps-refl t = record { state = refl; handle = refl; exit = λ e. e }

pub Keeps-eq : {t u : Thread} → u ≡ t → Keeps t u
Keeps-eq e = record {
  state = ap (λ (x : Thread). x.state) e;
  handle = ap (λ (x : Thread). x.handle) e;
  exit = λ k. ap (λ (x : Thread). x.exit) e ∙ k;
}

-- What the class around the network thread promises of what it overrides.
pub record NetLaws {S World : Type 0} (F : Type 0) (v : NetVirtuals S World) : Type 0 where
  pub net-set_net : (t : NetworkThread) (s : S) → v.net (v.set_net t s) ≡ t
  pub net-set_world : (w : World) (s : S) → v.net (v.set_world w s) ≡ v.net s
  pub on_receive :
      (sockfd : ℤ) (s : S)
      → Post F (λ _ s'. Keeps (v.net s).base (v.net s').base) (v.receive_int_message sockfd s)
  pub on_message :
      (sockfd : ℤ) (m : ℕ) (s : S)
      → Post F (λ _ s'. Keeps (v.net s).base (v.net s').base) (v.on_message sockfd m s)
  pub on_error :
      (sockfd : ℤ) (s : S)
      → Post F (λ _ s'. Keeps (v.net s).base (v.net s').base) (v.on_read_socket_error sockfd s)

module _ {S World Addr : Type 0} (F : Type 0) (os : Os World Addr) (bits : PollBits)
    (v : NetVirtuals S World) (laws : NetLaws F v) where
  abbrev pub Stays : {A : Type 0} → M S A → Type 0
  Stays m = (s : S) → Post F (λ _ s'. Keeps (v.net s).base (v.net s').base) (m s)

  Stays-then :
      {A B : Type 0} (m : M S A) (f : A → M S B) (s : S)
      → Stays m
      → ((a : A) → Stays (f a))
      → Post F (λ _ s'. Keeps (v.net s).base (v.net s').base) ((m >>= f) s)
  Stays-then m f s h k =
      Post->>= m f s (h s) λ a s₁ k₁. Post-mono (k a s₁) λ _ s₂ k₂. Keeps-trans k₁ k₂

  Stays-when : (b : Bool) (m : M S (Unit {0})) → Stays m → Stays (when b m)
  Stays-when true m h s = h s
  Stays-when false m h s = returns (Keeps-refl _)

  -- A result, a new network thread and a new world.
  kept : (s : S) → Keeps (v.net s).base (v.net s).base
  kept s = Keeps-refl (v.net s).base

  kept-set_net :
      (t : NetworkThread) (s : S)
      → t.base ≡ (v.net s).base
      → Keeps (v.net s).base (v.net (v.set_net t s)).base
  kept-set_net t s h = Keeps-eq (ap (λ (t : NetworkThread). t.base) (laws.net-set_net t s) ∙ h)

  kept-set_world : (w : World) (s : S) → Keeps (v.net s).base (v.net (v.set_world w s)).base
  kept-set_world w s = Keeps-eq (ap (λ (t : NetworkThread). t.base) (laws.net-set_world w s))

  end_thread-Stays : Stays (end_thread (thread_access os bits v))
  unfolding end_thread set_exit
  end_thread-Stays s = returns (record {
    state = ap (λ (t : NetworkThread). t.base.state) (laws.net-set_net _ s);
    handle = ap (λ (t : NetworkThread). t.base.handle) (laws.net-set_net _ s);
    exit = λ _. ap (λ (t : NetworkThread). t.base.exit) (laws.net-set_net _ s);
  })

  pub read_exit-Stays : Stays (read_exit (thread_access os bits v))
  unfolding read_exit
  read_exit-Stays s =
      Stays-then (thread_access os bits v).others _ s (λ s. returns (kept-set_world _ s))
        λ called s₁.
          Stays-then (when called (end_thread (thread_access os bits v))) _ s₁
            (Stays-when called _ end_thread-Stays)
            λ _ s₂. returns {a = (v.net s₂).base.exit} (kept s₂)

  pub exit_instance-Stays : Stays (exit_instance os bits v)
  unfolding exit_instance
  exit_instance-Stays s =
      returns (Keeps-trans (kept-set_world _ s) (kept-set_net _ (v.set_world _ s) refl))

  -- The branches of the test of poll's result.
  after_poll :
      (t : NetworkThread) (count : ℤ) (w : World) (failed interrupted : Bool)
      → Stays (
          if failed
          then (if interrupted
              then (do update_net os bits v (λ t. record t { events_count = pos 0 }); pure false)
              else (do
                system_ os bits v (msleep os t.timeout_millisec)
                update_net os bits v (λ t. record t { events_count = count })
                pure true))
          else (do update_net os bits v (λ t. record t { events_count = count }); pure true))
  after_poll t count w true true s = returns (kept-set_net _ s refl)
  after_poll t count w true false s =
      returns (Keeps-trans (kept-set_world _ s) (kept-set_net _ (v.set_world _ s) refl))
  after_poll t count w false interrupted s = returns (kept-set_net _ s refl)

  polled : (t : NetworkThread) → Stays (poll_table os bits v t)
  unfolding poll_table
  polled t s = returns (kept-set_world _ s)

  wait_network_event-Stays : Stays (wait_network_event os bits v)
  unfolding wait_network_event
  wait_network_event-Stays s =
      Stays-then (poll_table os bits v (v.net s)) _ s (polled (v.net s)) λ r s₁.
        Stays-then (set_table os bits v (λ t. record t { poll_fds = set_revents r.1 t.poll_fds })) _
          s₁ (λ s. returns (kept-set_net _ s refl))
          λ _ s₂.
            after_poll (v.net s) r.0 (v.world s₂) (is_negative r.0)
              (os.errno (v.world s₂) == os.eintr) s₂

  dispatch_message-Stays : (i : ℕ) (m : Option ℕ) → Stays (dispatch_message os bits v i m)
  unfolding dispatch_message fd_at
  dispatch_message-Stays i none s =
      Stays-then (v.on_read_socket_error _) _ s (laws.on_error _) λ _ s₁. returns (kept s₁)
  dispatch_message-Stays i (some m) s =
      Stays-then (v.on_message _ m) _ s (laws.on_message _ m) λ handled s₁.
        Stays-when (not handled) _
          (λ s₂.
            Stays-then (v.on_read_socket_error _) _ s₂ (laws.on_error _) λ _ s₃. returns (kept s₃))
          s₁

  serve_entry-Stays : (i : ℕ) → Stays (serve_entry os bits v i)
  unfolding serve_entry fd_at
  serve_entry-Stays i s =
      Stays-then (set_table os bits v (clear_revents os bits v i)) _ s
        (λ s. returns (kept-set_net _ s refl))
        λ _ s₁.
          Stays-then (v.receive_int_message (get_or (v.net s₁).table.poll_fds i empty_pollfd).fd) _
            s₁ (laws.on_receive _) λ m s₂. dispatch_message-Stays i m s₂

  count_event-Stays : Stays (count_event os bits v)
  unfolding count_event
  count_event-Stays s = returns (kept-set_net _ s refl)

  -- The loop of ProcessReadEvent, which may read past its array.
  entry-Stays :
      (b : Bool) (i : ℕ) (next : M S (Unit {0}))
      → Stays next
      → Stays (λ s.
        if b
        then (serve_entry os bits v i >>= λ _.
              count_event os bits v >>= λ last. if last then pure tt else next)
            s
        else next s)
  entry-Stays false i next h s = h s
  entry-Stays true i next h s =
      Stays-then (serve_entry os bits v i) _ s (serve_entry-Stays i)
        λ _ s₁. Stays-then (count_event os bits v) _ s₁ count_event-Stays λ last s₂. ends last s₂
    where
      ends : (last : Bool) → Stays (if last then pure tt else next)
      ends true s = returns (kept s)
      ends false s = h s

  -- A test of the index.
  inside-Stays :
      (b : Bool) (m k : M S (Unit {0})) → Stays m → Stays k → Stays (λ s. if b then m s else k s)
  inside-Stays true m k h l s = h s
  inside-Stays false m k h l s = l s

  process_from-Stays : F → (rounds i : ℕ) → Stays (process_from os bits v rounds i)
  unfolding process_from
  process_from-Stays lost zero i s =
      inside-Stays (ltb i (v.net s).table.poll_fd_count) (λ s. none) (pure tt) (λ s. fails lost)
        (λ s. returns (kept s)) s
  process_from-Stays lost (suc rounds) i s =
      inside-Stays (ltb i (v.net s).table.poll_fd_count) _ (pure tt)
        (entry-Stays (is_ready bits (get_or (v.net s).table.poll_fds i empty_pollfd)) i
          (process_from os bits v rounds (i + 1)) (process_from-Stays lost rounds (i + 1)))
        (λ s. returns (kept s)) s

  process_read_event-Stays : F → Stays (process_read_event os bits v)
  unfolding process_read_event
  process_read_event-Stays lost s =
      Stays-then (process_from os bits v max_fd_size 0) _ s (process_from-Stays lost max_fd_size 0)
        λ _ s₁. returns {a = true} (kept s₁)

  processed-Stays : F → Stays (process_read_event os bits v >>= λ _. pure tt)
  processed-Stays lost s =
      Stays-then (process_read_event os bits v) _ s (process_read_event-Stays lost)
        λ _ s₁. returns {a = tt} (kept s₁)

  served-Stays : F → Stays (served os bits v)
  served-Stays lost s =
      Stays-then (read_exit (thread_access os bits v)) _ s read_exit-Stays λ ending s₁.
        Stays-when (not ending && is_positive (v.net s₁).events_count)
          (process_read_event os bits v >>= λ _. pure tt) (processed-Stays lost) s₁

  waited_for-Stays : F → Stays (waited_for os bits v)
  waited_for-Stays lost s =
      Stays-then (wait_network_event os bits v) _ s wait_network_event-Stays
        λ waited s₁. Stays-when waited (served os bits v) (served-Stays lost) s₁

  pub run-Stays : F → Stays (run os bits v)
  unfolding run
  run-Stays lost s =
      Stays-then (read_exit (thread_access os bits v)) _ s read_exit-Stays λ ending s₁.
        Stays-then (when (not ending) (waited_for os bits v)) _ s₁
          (Stays-when (not ending) (waited_for os bits v) (waited_for-Stays lost))
          λ _ s₂. returns {a = true} (kept s₂)
