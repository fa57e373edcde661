-- ===== src/Poll/Spec.antt =====
-- The poll table against the multiset of its sockets, over any sequence of PollFDAdd and PollFDDelete.
use libcastis_heartbeat.Prelude.{
  ◌≡◌, refl, ap, ap₂, sym, ◌∙◌, ℤ, Bool, false, List, [], ◌∷◌, ◌++◌, inl, inr,
}
use libcastis_heartbeat.Poll.{Pollfd, PollBits, PollTable, poll_fd_add, poll_fd_delete}
use libcastis_heartbeat.Poll.Table.{IsTable, new_pollfd, poll_fd_add-IsTable}
use libcastis_heartbeat.Poll.Delete.{poll_fd_delete-IsTable}
use libcastis_heartbeat.Poll.Bag.{
  Op, add, delete, Bag, in_bag, all_in_bag, bag_of, occurrences-absent, bag_of-perm, refused_bag,
  added_bag, deleted_bag,
}

abbrev pub perform : PollBits → Op → PollTable → Bool × PollTable
perform bits (add sockfd) t = poll_fd_add bits sockfd t
perform bits (delete sockfd) t = poll_fd_delete sockfd t

-- The results in order, and the table at the end.
abbrev pub perform_all : PollBits → List Op → PollTable → List Bool × PollTable
perform_all bits [] t = ([], t)
perform_all bits (op ∷ ops) t =
    let (r, t₁) = perform bits op t in let (rs, t₂) = perform_all bits ops t₁ in (r ∷ rs, t₂)

-- What a table answers, one Boolean or a list of them, against what its multiset answers.
pub record Agrees {A : Type 0} (r : A × PollTable) (s : A × Bag) : Type 0 where
  pub used : List Pollfd
  pub table : IsTable used r.1
  pub result : r.0 ≡ s.0
  pub bag : bag_of used ≡ s.1

pub add-Agrees :
    (bits : PollBits) (sockfd : ℤ) (used : List Pollfd) (t : PollTable)
    → IsTable used t
    → Agrees (poll_fd_add bits sockfd t) (in_bag (add sockfd) (bag_of used))
add-Agrees bits sockfd used t h = elim (poll_fd_add-IsTable bits sockfd used t h) [
  | inl (refused, same) ↦
      let spec = refused_bag sockfd (bag_of used) refused in
      record {
        used = used;
        table = rw same h;
        result = ap (λ r. r.0) (same ∙ sym (ap (λ s. (s.0, t)) spec));
        bag = sym (ap (λ s. s.1) spec);
      }
  | inr (valid, room, taken, table) ↦
      let spec = added_bag bits sockfd used valid room in
      record {
        used = used ++ new_pollfd bits sockfd ∷ [];
        table = table;
        result = taken ∙ sym (ap (λ s. s.0) spec);
        bag = sym (ap (λ s. s.1) spec);
      }
]

pub delete-Agrees :
    (sockfd : ℤ) (used : List Pollfd) (t : PollTable)
    → IsTable used t
    → Agrees (poll_fd_delete sockfd t) (in_bag (delete sockfd) (bag_of used))
delete-Agrees sockfd used t h = elim (poll_fd_delete-IsTable sockfd used t h) [
  | inl (absent, same) ↦
      let spec : in_bag (delete sockfd) (bag_of used) ≡ (false, bag_of used) =
        rw (occurrences-absent sockfd used absent) in
      record {
        used = used;
        table = rw same h;
        result = ap (λ r. r.0) (same ∙ sym (ap (λ s. (s.0, t)) spec));
        bag = sym (ap (λ s. s.1) spec);
      }
  | inr d ↦
      let spec =
        ap (in_bag (delete sockfd)) (bag_of-perm d.perm)
        ∙ deleted_bag sockfd d.entry d.others d.holds in
      record {
        used = d.others;
        table = d.table;
        result = d.found ∙ sym (ap (λ s. s.0) spec);
        bag = sym (ap (λ s. s.1) spec);
      }
]

perform-Agrees :
    (bits : PollBits) (op : Op) (used : List Pollfd) (t : PollTable)
    → IsTable used t
    → Agrees (perform bits op t) (in_bag op (bag_of used))
perform-Agrees bits (add sockfd) = add-Agrees bits sockfd
perform-Agrees bits (delete sockfd) = delete-Agrees sockfd

-- The poll table is a bounded multiset of sockets: over any sequence of PollFDAdd and PollFDDelete on a
-- well-formed table each call answers what it answers on the multiset of the table's sockets, true for
-- an added socket unless it is NU_INVALID_SOCKET or max_fd_size are there, true for a deleted one exactly
-- if it is there, and at the end the table is well-formed and its sockets are that multiset.
pub perform_all-Agrees :
    (bits : PollBits) (ops : List Op) (used : List Pollfd) (t : PollTable)
    → IsTable used t
    → Agrees (perform_all bits ops t) (all_in_bag ops (bag_of used))
perform_all-Agrees bits [] used t h = record { used = used; table = h; result = refl; bag = refl }
perform_all-Agrees bits (op ∷ ops) used t h =
    let first = perform-Agrees bits op used t h in
    let rest = perform_all-Agrees bits ops first.used (perform bits op t).1 first.table in
    record {
      used = rest.used;
      table = rest.table;
      result =
          ap₂ (λ b bs. b ∷ bs) first.result
            (rest.result ∙ ap (λ b. (all_in_bag ops b).0) first.bag);
      bag = rest.bag ∙ ap (λ b. (all_in_bag ops b).1) first.bag;
    }
