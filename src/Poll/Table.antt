-- ===== src/Poll/Table.antt =====
-- What a poll table stands for: the list of its live entries, in order. Adding a socket.
use libcastis_heartbeat.Prelude.{
  ℤ-cases, dec_lt, ℕ, zero, suc, ◌-◌, ◌≤◌, ◌<◌, ◌≡◌, ◌≢◌, refl, ap, sym, ◌∙◌, ℤ, ==ℤ_iff, true,
  false, List, [], ◌∷◌, ◌++◌, length, set, get_or, replicate, All, append_assoc, arith,
  length-append, ◌⊎◌, inl, inr,
}
use libcastis_heartbeat.Poll.{
  Pollfd, PollBits, PollTable, invalid_socket, max_fd_size, read_bits, empty_pollfd, clear_table,
  poll_fd_add,
}

-- The live entries stand first, and the rest of the array is empty.
abbrev pub table_of : List Pollfd → PollTable
table_of used = record {
  poll_fds = used ++ replicate (max_fd_size - length used) empty_pollfd;
  poll_fd_count = length used;
}

abbrev pub IsLive : Pollfd → Type 0
IsLive p = p.fd ≢ invalid_socket

-- A well-formed table: at most max_fd_size live entries, none of them NU_INVALID_SOCKET.
pub record IsTable (used : List Pollfd) (t : PollTable) : Type 0 where
  pub shape : t ≡ table_of used
  pub bounded : length used ≤ max_fd_size
  pub live : All IsLive used

pub set-append {ℓ} :
    {A : Type ℓ} (xs : List A) (y v : A) (ys : List A)
    → set (xs ++ y ∷ ys) (length xs) v ≡ xs ++ v ∷ ys
set-append [] y v ys = refl
set-append (x ∷ xs) y v ys = ap (◌∷◌ x) (set-append xs y v ys)

pub get_or-append {ℓ} :
    {A : Type ℓ} (xs : List A) (y d : A) (ys : List A) → get_or (xs ++ y ∷ ys) (length xs) d ≡ y
get_or-append [] y d ys = refl
get_or-append (x ∷ xs) y d ys = get_or-append xs y d ys

pub All-append {ℓ κ} :
    {A : Type ℓ} (P : A → Type κ) (xs ys : List A) → All P xs → All P ys → All P (xs ++ ys)
All-append P [] ys hx hy = hy
All-append P (x ∷ xs) ys hx hy = (hx.0, All-append P xs ys hx.1 hy)

pub replicate-suc {ℓ} :
    {A : Type ℓ} (n : ℕ) (v : A) → 0 < n → replicate n v ≡ v ∷ replicate (n - 1) v
replicate-suc zero v h = elim h [ ]
replicate-suc (suc n) v h = ap (λ k. v ∷ replicate k v) (omega arith)

pub clear_table-IsTable : IsTable [] clear_table
unfolding clear_table
clear_table-IsTable = record {
  shape = ap (λ n. record { poll_fds = replicate n empty_pollfd; poll_fd_count = 0 }) (omega arith);
  bounded = omega arith;
  live = tt;
}

abbrev pub new_pollfd : PollBits → ℤ → Pollfd
new_pollfd bits sockfd = record { fd = sockfd; events = read_bits bits; revents = 0 }

-- The array with its first free entry shown.
pub table_of-free :
    (used : List Pollfd)
    → length used < max_fd_size
    → (table_of used).poll_fds
      ≡ used ++ empty_pollfd ∷ replicate (max_fd_size - length used - 1) empty_pollfd
table_of-free used h =
    ap (◌++◌ used) (replicate-suc (max_fd_size - length used) empty_pollfd (omega arith))

-- The array with one entry more.
pub table_of-snoc :
    (used : List Pollfd) (p : Pollfd)
    → (table_of (used ++ p ∷ [])).poll_fds
      ≡ used ++ p ∷ replicate (max_fd_size - length used - 1) empty_pollfd
table_of-snoc used p =
    append_assoc used (p ∷ []) _
    ∙ ap (λ n. used ++ p ∷ replicate n empty_pollfd) (omega (arith, length-append used (p ∷ [])))

pub set-table_of :
    (used : List Pollfd) (p : Pollfd)
    → length used < max_fd_size
    → set (table_of used).poll_fds (length used) p ≡ (table_of (used ++ p ∷ [])).poll_fds
set-table_of used p h =
    ap (λ fds. set fds (length used) p) (table_of-free used h)
    ∙ set-append used empty_pollfd p _
    ∙ sym (table_of-snoc used p)

-- Adding to a table with room.
push-table_of :
    (bits : PollBits) (sockfd : ℤ) (used : List Pollfd)
    → sockfd ≢ invalid_socket
    → length used < max_fd_size
    → poll_fd_add bits sockfd (table_of used)
      ≡ (true, table_of (used ++ new_pollfd bits sockfd ∷ []))
unfolding poll_fd_add
push-table_of bits sockfd used valid room = ground (
  arith,
  ==ℤ_iff sockfd invalid_socket,
  set-table_of used (new_pollfd bits sockfd),
  length-append used (new_pollfd bits sockfd ∷ []),
)

-- The two ways to be refused.
refused-table_of :
    (bits : PollBits) (sockfd : ℤ) (t : PollTable)
    → (sockfd ≡ invalid_socket) ⊎ (max_fd_size ≤ t.poll_fd_count)
    → poll_fd_add bits sockfd t ≡ (false, t)
unfolding poll_fd_add
refused-table_of bits sockfd t h = ground (arith, ==ℤ_iff sockfd invalid_socket)

-- A well-formed table takes a socket exactly if it is not NU_INVALID_SOCKET and there is room. Then
-- the socket is the last live entry, with the read events and no result, behind the old entries;
-- otherwise the table is unchanged.
pub poll_fd_add-IsTable :
    (bits : PollBits) (sockfd : ℤ) (used : List Pollfd) (t : PollTable)
    → IsTable used t
    → (((sockfd ≡ invalid_socket) ⊎ (max_fd_size ≤ length used))
        × (poll_fd_add bits sockfd t ≡ (false, t)))
      ⊎ ((sockfd ≢ invalid_socket)
          × (length used < max_fd_size)
          × ((poll_fd_add bits sockfd t).0 ≡ true)
          × IsTable (used ++ new_pollfd bits sockfd ∷ []) (poll_fd_add bits sockfd t).1)
poll_fd_add-IsTable bits sockfd used t h = elim (ℤ-cases sockfd invalid_socket) [
  | inl e ↦ inl (inl e, refused-table_of bits sockfd t (inl e))
  | inr valid ↦ elim (dec_lt (length used) max_fd_size) [
    | no full ↦
        inl (inr (omega arith), refused-table_of bits sockfd t (inr (rw h.shape (omega arith))))
    | yes room ↦
        let pushed = push-table_of bits sockfd used valid room in
        inr (
          valid,
          room,
          rw h.shape (ap (λ r. r.0) pushed),
          record {
            shape = rw h.shape (ap (λ r. r.1) pushed);
            bounded = omega (arith, length-append used (new_pollfd bits sockfd ∷ []));
            live = All-append IsLive used (new_pollfd bits sockfd ∷ []) h.live (valid, tt);
          },
        )
  ]
]
