-- ===== src/Examples/Starts.antt =====
-- The legacy responder from its construction on.
use libcastis_heartbeat.Prelude.{
  ℕ, ◌≡◌, ◌<◌, refl, pos, true, List, [], ◌∷◌, ◌++◌, replicate, some, arith,
}
use libcastis_heartbeat.Wire.Hosts.{little}
use libcastis_heartbeat.Poll.{PollBits, clear_table, max_fd_size}
use libcastis_heartbeat.Poll.Table.{clear_table-IsTable}
use libcastis_heartbeat.Thread
use libcastis_heartbeat.Thread.{ready, is_thread_done, run_thread_here}
use libcastis_heartbeat.Thread.Laws.{Call, waits, inits, runs, exits, posts}
use libcastis_heartbeat.Thread.Log.{logged}
use libcastis_heartbeat.Defs.{alive}
use libcastis_heartbeat.Semaphore
use libcastis_heartbeat.Net
use libcastis_heartbeat.Responser
use libcastis_heartbeat.Responser.{Responser, Prog, init_instance}
use libcastis_heartbeat.Responser.Init.{InitOutcome, init_instance-branches}
use libcastis_heartbeat.Responser.Runs.{thread_virtuals, responser_run-calls}
use libcastis_heartbeat.Responser.Stops.{IsIdle, responser_run-IsIdle}
use libcastis_heartbeat.Examples.Systems.{Kernel, kernel}
use libcastis_heartbeat.Examples.Polls.{linux_bits}

abbrev new_one : Responser ℕ
new_one = record {
  net = record {
    base = record { handle = 0; exit = true; state = ready };
    read_sockets = [];
    table = clear_table;
    events_count = pos 0;
    timeout_millisec = pos 100;
  };
  representative_ip = 49 ∷ [];
  local_ip = 50 ∷ [];
  port_number = 7000;
  process_state = alive;
  sa_recv = 0;
  recv_buf = [];
}

-- Another thread ends it at the first read of its exit flag.
abbrev start : Prog Kernel ℕ
start = record { obj = new_one; world = record { inbox = []; outbox = []; closed = []; reads = 0 } }

room : 0 < max_fd_size
unfolding max_fd_size
room = omega arith

init_instance-branches_example :
    InitOutcome little kernel linux_bits [] start (init_instance little kernel linux_bits start)
init_instance-branches_example =
    init_instance-branches little kernel linux_bits [] start clear_table-IsTable room

abbrev stopped : Prog Kernel ℕ
stopped = record {
  obj = record new_one {
    net = record (new_one.net) { base = record { handle = 0; exit = true; state = Thread.done } };
  };
  world = record { inbox = []; outbox = []; closed = pos 3 ∷ []; reads = 0 };
}

abbrev calls : List Call
calls = posts ∷ exits ∷ inits ∷ waits ∷ []

start_run :
    run_thread_here (logged (thread_virtuals little kernel linux_bits 1)) 3 (start, [])
    ≡ some (true, (stopped, calls))
unfolding Thread.is_thread_done Thread.set_exit Thread.end_thread Thread.read_exit Thread.set_state
    Thread.finish Thread.leave Thread.run_or_leave Thread.start Thread.dispatch Thread.thread_proc
    Thread.proc_loop Thread.prepare_running Thread.notify_exit Thread.run_thread_here
    Thread.init_instance Semaphore.wait Semaphore.post Net.exit_instance Net.disconnect_all
    Net.nu_disconnect Net.add_read_socket Net.ReadSockets.insert Responser.init_instance
    Responser.nu_create_udp_socket Responser.set_up Responser.nu_set_reuse_addr Responser.nu_bind
    Responser.add_socket Responser.add_poll_fd libcastis_heartbeat.Poll.poll_fd_add max_fd_size
    clear_table
start_run = refl

responser_run-calls_example :
    (is_thread_done stopped.net.base ≡ true)
    × (n : ℕ) × (calls ≡ posts ∷ exits ∷ (replicate n runs ++ inits ∷ waits ∷ []))
responser_run-calls_example =
    responser_run-calls little kernel linux_bits 1 3 start stopped calls start_run

start_end :
    run_thread_here (thread_virtuals little kernel linux_bits 1) 3 start ≡ some (true, stopped)
unfolding Thread.is_thread_done Thread.set_exit Thread.end_thread Thread.read_exit Thread.set_state
    Thread.finish Thread.leave Thread.run_or_leave Thread.start Thread.dispatch Thread.thread_proc
    Thread.proc_loop Thread.prepare_running Thread.notify_exit Thread.run_thread_here
    Thread.init_instance Semaphore.wait Semaphore.post Net.exit_instance Net.disconnect_all
    Net.nu_disconnect Net.add_read_socket Net.ReadSockets.insert Responser.init_instance
    Responser.nu_create_udp_socket Responser.set_up Responser.nu_set_reuse_addr Responser.nu_bind
    Responser.add_socket Responser.add_poll_fd libcastis_heartbeat.Poll.poll_fd_add max_fd_size
    clear_table
start_end = refl

responser_run-IsIdle_example : IsIdle stopped
responser_run-IsIdle_example =
    responser_run-IsIdle little kernel linux_bits 1 3 start stopped start_end
