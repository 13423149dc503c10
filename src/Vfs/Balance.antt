-- ===== src/Vfs/Balance.antt =====
-- A write to one place changes the count of one backend, and no other.
use mboot.Prelude.{
  ℕ, ◌+◌, ◌≤◌, ◌<◌, ◌≡◌, refl, ap, ◌∙◌, sym, true, some, ==_iff, if◌then◌else◌, arith, set,
  length-set, inl, inr, Bool-cases, ℤ,
}
use mathlib.Core.Bool.{true≢false}
use mboot.Net.Socket.{Socket, zeroed_socket}
use mboot.Vfs.Backends.{Backends, CpuinfoFile, closed_cpuinfo}
use mboot.Vfs.Refs.{Slot, socket, cpuinfo, slot_of, same_slot, one_if, refs_of, value-set, IsTables}
use mboot.Vfs.Counts.{socket_value}

module _ {Disk : Type 0} where
  -- A backend that the handle names has a descriptor to lose.
  abbrev pub Live : ℤ → Backends Disk → Type 0
  Live h st = (s : Slot) → one_if (same_slot s (slot_of h)) ≤ refs_of s st

  abbrev pub Adds : ℤ → Backends Disk → Backends Disk → Type 0
  Adds h st st' =
      IsTables st' × ((s : Slot) → refs_of s st' ≡ one_if (same_slot s (slot_of h)) + refs_of s st)

  abbrev pub Drops : ℤ → Backends Disk → Backends Disk → Type 0
  Drops h st st' =
      IsTables st' × ((s : Slot) → one_if (same_slot s (slot_of h)) + refs_of s st' ≡ refs_of s st)

  -- The count of the backend that the handle names goes from `old` to `new`.
  pub record Written (h : ℤ) (old new : ℕ) (st st' : Backends Disk) : Type 0 where
    tables : IsTables st'
    refs : (s : Slot) → refs_of s st' ≡ (if same_slot s (slot_of h) then new else refs_of s st)
    before : (s : Slot) → same_slot s (slot_of h) ≡ true → refs_of s st ≡ old

  module _ {h : ℤ} {old new : ℕ} {st st' : Backends Disk} (w : Written h old new st st') where
    pub Written-Adds : new ≡ 1 + old → Adds h st st'
    Written-Adds e = (w.tables, counts)
      where
        counts : (s : Slot) → refs_of s st' ≡ one_if (same_slot s (slot_of h)) + refs_of s st
        counts s = elim (Bool-cases (same_slot s (slot_of h))) [
          | inl k ↦
              w.refs s
              ∙ ap (λ b. if b then new else refs_of s st) k
              ∙ omega (arith, e, w.before s k)
              ∙ sym (ap (λ b. one_if b + refs_of s st) k)
          | inr k ↦
              w.refs s
              ∙ ap (λ b. if b then new else refs_of s st) k
              ∙ omega arith
              ∙ sym (ap (λ b. one_if b + refs_of s st) k)
        ]

    pub Written-Drops : 1 + new ≡ old → Drops h st st'
    Written-Drops e = (w.tables, counts)
      where
        counts : (s : Slot) → one_if (same_slot s (slot_of h)) + refs_of s st' ≡ refs_of s st
        counts s = elim (Bool-cases (same_slot s (slot_of h))) [
          | inl k ↦
              ap (λ b. one_if b + refs_of s st') k
              ∙ omega
                  (arith, w.refs s ∙ ap (λ b. if b then new else refs_of s st) k, e, w.before s k)
          | inr k ↦
              ap (λ b. one_if b + refs_of s st') k
              ∙ omega (arith, w.refs s ∙ ap (λ b. if b then new else refs_of s st) k)
        ]

  module _ (h : ℤ) (st : Backends Disk) (tables : IsTables st) (i : ℕ) where
    pub write-socket :
        i < 16
        → slot_of h ≡ some (socket i)
        → (v : Socket)
        → Written h
            (refs_of (socket i) st)
            (socket_value v)
            st
            (record st { sockets = set st.sockets i v })
    write-socket b e v = record {
      tables = record {
        sockets = length-set st.sockets i v ∙ tables.sockets;
        cpuinfo_files = tables.cpuinfo_files;
      };
      refs =
          λ s. counts s ∙ ap (λ o. if same_slot s o then socket_value v else refs_of s st) (sym e);
      before = λ s k. same s (ap (same_slot s) (sym e) ∙ k);
    }
      where
        counts :
            (s : Slot)
            → refs_of s (record st { sockets = set st.sockets i v })
              ≡ (if same_slot s (some (socket i)) then socket_value v else refs_of s st)
        counts (cpuinfo j) = refl
        counts (socket j) =
            value-set socket_value st.sockets i j v zeroed_socket (omega (arith, tables.sockets, b))

        same :
            (s : Slot) → same_slot s (some (socket i)) ≡ true → refs_of s st ≡ refs_of (socket i) st
        same (cpuinfo j) k = absurd (true≢false (sym k))
        same (socket j) k = ap (λ n. refs_of (socket n) st) ((==_iff j i).0 k)

    pub write-cpuinfo :
        i < 4
        → slot_of h ≡ some (cpuinfo i)
        → (v : CpuinfoFile)
        → Written h
            (refs_of (cpuinfo i) st)
            (if v.used then v.refs else 0)
            st
            (record st { cpuinfo_files = set st.cpuinfo_files i v })
    write-cpuinfo b e v = record {
      tables = record {
        sockets = tables.sockets;
        cpuinfo_files = length-set st.cpuinfo_files i v ∙ tables.cpuinfo_files;
      };
      refs = λ s.
          counts s
          ∙ ap (λ o. if same_slot s o then (if v.used then v.refs else 0) else refs_of s st)
              (sym e);
      before = λ s k. same s (ap (same_slot s) (sym e) ∙ k);
    }
      where
        counts :
            (s : Slot)
            → refs_of s (record st { cpuinfo_files = set st.cpuinfo_files i v }) ≡ (
                if same_slot s (some (cpuinfo i))
                then (if v.used then v.refs else 0)
                else refs_of s st)
        counts (socket j) = refl
        counts (cpuinfo j) =
            value-set (λ (f : CpuinfoFile). if f.used then f.refs else 0) st.cpuinfo_files i j v
              closed_cpuinfo (omega (arith, tables.cpuinfo_files, b))

        same :
            (s : Slot)
            → same_slot s (some (cpuinfo i)) ≡ true
            → refs_of s st ≡ refs_of (cpuinfo i) st
        same (socket j) k = absurd (true≢false (sym k))
        same (cpuinfo j) k = ap (λ n. refs_of (cpuinfo n) st) ((==_iff j i).0 k)
