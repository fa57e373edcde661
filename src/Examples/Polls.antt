-- ===== src/Examples/Polls.antt =====
-- The poll table of a system with the bits of Linux.
use libcastis_heartbeat.Prelude.{
  ℕ, ◌≡◌, ◌≢◌, ◌≤◌, ◌<◌, ◌⊎◌, refl, pos, true, false, List, [], ◌∷◌, ◌++◌, length, arith,
}
use libcastis_heartbeat.Poll.{
  Pollfd, PollBits, invalid_socket, max_fd_size, poll_fd_add, poll_fd_delete,
}
use libcastis_heartbeat.Poll.Table.{table_of, IsTable, new_pollfd, poll_fd_add-IsTable}
use libcastis_heartbeat.Poll.Bag.{Op, add, delete, all_in_bag, bag_of}
use libcastis_heartbeat.Poll.Spec.{perform_all, Agrees, perform_all-Agrees}
use libcastis_heartbeat.Poll.Delete.{Deleted, IsAbsent, poll_fd_delete-IsTable}

abbrev pub linux_bits : PollBits
linux_bits = record { pollin = 1; pollrdnorm = 64; pollrdband = 128; pollpri = 2 }

abbrev pub entry : ℕ → Pollfd
entry n = record { fd = pos n; events = 195; revents = 0 }

-- A table with three sockets.
abbrev pub three : List Pollfd
three = entry 3 ∷ entry 4 ∷ entry 5 ∷ []

pub three-IsTable : IsTable three (table_of three)
unfolding max_fd_size
three-IsTable = record {
  shape = refl;
  bounded = omega arith;
  live = ((λ e. cc), ((λ e. cc), ((λ e. cc), tt)));
}

poll_fd_add-IsTable_example :
    (((pos 6 ≡ invalid_socket) ⊎ (max_fd_size ≤ length three))
      × (poll_fd_add linux_bits (pos 6) (table_of three) ≡ (false, table_of three)))
    ⊎ ((pos 6 ≢ invalid_socket)
        × (length three < max_fd_size)
        × ((poll_fd_add linux_bits (pos 6) (table_of three)).0 ≡ true)
        × IsTable
            (three ++ new_pollfd linux_bits (pos 6) ∷ [])
            (poll_fd_add linux_bits (pos 6) (table_of three)).1)
poll_fd_add-IsTable_example =
    poll_fd_add-IsTable linux_bits (pos 6) three (table_of three) three-IsTable

poll_fd_delete-IsTable_example :
    (IsAbsent (pos 4) three × (poll_fd_delete (pos 4) (table_of three) ≡ (false, table_of three)))
    ⊎ Deleted (pos 4) three (poll_fd_delete (pos 4) (table_of three))
poll_fd_delete-IsTable_example = poll_fd_delete-IsTable (pos 4) three (table_of three) three-IsTable

-- A socket twice, another one, and deletions of which the last finds nothing.
abbrev ops : List Op
ops = add (pos 6) ∷ add (pos 6) ∷ delete (pos 4) ∷ delete (pos 6) ∷ delete (pos 4) ∷ []

perform_all-Agrees_example :
    Agrees (perform_all linux_bits ops (table_of three)) (all_in_bag ops (bag_of three))
perform_all-Agrees_example = perform_all-Agrees linux_bits ops three (table_of three) three-IsTable

-- What the specification answers.
ops-answers : (all_in_bag ops (bag_of three)).0 ≡ true ∷ true ∷ true ∷ true ∷ false ∷ []
unfolding max_fd_size
ops-answers = refl
