-- ===== src/Handles/Steps.antt =====
-- Tasks that open, close, duplicate and inherit descriptors, in any order.
--
-- The tables of the tasks stand in a list. A step is a call by one of them; a fork adds the child's
-- table, an exit removes the task's, in whatever place.
use mboot.Prelude.{
  ℕ, ◌+◌, ◌^◌, ◌<◌, ◌≡◌, ap, ◌∙◌, sym, some, List, ◌∷◌, ◌++◌, arith, length, length-append, All,
  All-split, All-append, ℤ,
}
use mathlib.Core.Path.{subst}
use mathlib.Core.Option.{some-injective}
use mboot.Vfs.Backends.{Backends}
use mboot.Vfs.Fds.{vfs_close, vfs_dup2, vfs_fork_fds, vfs_exit_fds}
use mboot.Vfs.Devices.{UdpDevices}
use mboot.Vfs.Opens.{OpenResult, vfs_open}
use mboot.Fat16.Disk.{Disk}
use mboot.Fat16.Files.{Fat16}
use mboot.Fat16.Directory.{fat16_open}
use mboot.Handles.Counts.{file_held, file_held-append, IsReferenced}
use mboot.Handles.Driver.{fat16_driver}
use mboot.Handles.Operations.{vfs_fork_fds-IsReferenced, vfs_exit_fds-IsReferenced}
use mboot.Handles.Closing.{vfs_close-IsReferenced}
use mboot.Handles.Duplicating.{vfs_dup2-IsReferenced}
use mboot.Handles.Tables.{flatten, file_held-flatten, length-flatten, others, in_front, in_place}
use mboot.Handles.Lengths.{length-vfs_close, length-vfs_dup2, child-parent}
use mboot.Handles.OpenPath.{vfs_open-IsReferenced}

-- The tables of the tasks, and the backends.
pub record System : Type 0 where
  pub tables : List (List ℤ)
  pub backends : Backends Fat16
  pub devices : UdpDevices

-- A call by a task whose table is `t`, between the others, and what it leaves.
pub data Step (disk : Disk) (s : System) : System → Type 0 where
  opens :
      (before behind : List (List ℤ)) (t : List ℤ) (tty : ℕ) (path : List ℕ) (r : OpenResult Fat16)
      → s.tables ≡ before ++ t ∷ behind
      → vfs_open tty (some fat16_driver) (some (fat16_open disk)) path t s.backends s.devices
        ≡ some r
      → Step disk s (record { tables = before ++ r.1 ∷ behind; backends = r.2; devices = r.3 })
  closes :
      (before behind : List (List ℤ)) (t : List ℤ) (fd : ℤ) (r : ℤ × List ℤ × Backends Fat16)
      → s.tables ≡ before ++ t ∷ behind
      → vfs_close (some fat16_driver) fd t s.backends ≡ r
      → Step disk s (record s { tables = before ++ r.1 ∷ behind; backends = r.2 })
  dups :
      (before behind : List (List ℤ)) (t : List ℤ) (tty : ℕ) (oldfd newfd : ℤ)
      (r : ℤ × List ℤ × Backends Fat16)
      → s.tables ≡ before ++ t ∷ behind
      → vfs_dup2 (some fat16_driver) tty oldfd newfd t s.backends ≡ r
      → Step disk s (record s { tables = before ++ r.1 ∷ behind; backends = r.2 })
  forks :
      (before behind : List (List ℤ)) (t : List ℤ) (r : List ℤ × Backends Fat16)
      → s.tables ≡ before ++ t ∷ behind
      → length (t ++ flatten s.tables) + 2 < 2 ^ 32
      → vfs_fork_fds (some fat16_driver) t s.backends ≡ r
      → Step disk s (record s { tables = r.0 ∷ s.tables; backends = r.1 })
  exits :
      (before behind : List (List ℤ)) (t : List ℤ) (r : List ℤ × Backends Fat16)
      → s.tables ≡ before ++ t ∷ behind
      → vfs_exit_fds (some fat16_driver) t s.backends ≡ r
      → Step disk s (record s { tables = before ++ behind; backends = r.1 })

pub data Steps (disk : Disk) (s : System) : System → Type 0 where
  here : Steps disk s s
  next : {t u : System} → Steps disk s t → Step disk t u → Steps disk s u

-- Each table has 16 descriptors, fewer than 2 ^ 32 - 2 in all, and each open file counts those that
-- hold it.
pub record IsAccounted (s : System) : Type 0 where
  pub tables : All (λ (t : List ℤ). length t ≡ 16) s.tables
  pub room : length (flatten s.tables) + 2 < 2 ^ 32
  pub referenced : IsReferenced (flatten s.tables) s.backends.disk

module _ (before behind : List (List ℤ)) where
  module _ {s : System} (t : List ℤ) (a : IsAccounted s) (e : s.tables ≡ before ++ t ∷ behind) where
    others-full : All (λ (t : List ℤ). length t ≡ 16) (before ++ behind) × (length t ≡ 16)
    others-full =
        let (front, back) =
          All-split (λ (t : List ℤ). length t ≡ 16) before (t ∷ behind)
            (subst (All (λ (t : List ℤ). length t ≡ 16)) e a.tables) in
        (All-append (λ (t : List ℤ). length t ≡ 16) before behind front back.1, back.0)

    caller : IsReferenced (t ++ others before behind) s.backends.disk
    caller =
        in_front before behind t
          (subst (λ l. IsReferenced (flatten l) s.backends.disk) e a.referenced)

    total : length t + length (others before behind) + 2 < 2 ^ 32
    total = omega (arith, a.room, ap (λ l. length (flatten l)) e, length-flatten before behind t)

    caller-Room : length (t ++ others before behind) + 2 < 2 ^ 32
    caller-Room = omega (arith, total, length-append t (others before behind))

    -- A call that changes the caller's table and the backends.
    changed-IsAccounted :
        (t' : List ℤ) (backends : Backends Fat16) (devices : UdpDevices)
        → length t' ≡ 16
        → IsReferenced (t' ++ others before behind) backends.disk
        → IsAccounted
            (record { tables = before ++ t' ∷ behind; backends = backends; devices = devices })
    changed-IsAccounted t' backends devices full h =
        let (front, back) = All-split (λ (t : List ℤ). length t ≡ 16) before behind others-full.0 in
        record {
          tables =
              All-append (λ (t : List ℤ). length t ≡ 16) before (t' ∷ behind) front (full, back);
          room = omega (arith, total, length-flatten before behind t', full, others-full.1);
          referenced = in_place before behind t' h;
        }

Step-IsAccounted : {disk : Disk} {s s' : System} → Step disk s s' → IsAccounted s → IsAccounted s'
Step-IsAccounted {disk = disk} {s = s} (opens before behind t tty path r e c) a =
    let full = (others-full before behind t a e).1 in
    let (r', found, (kept, size)) =
      vfs_open-IsReferenced (others before behind) t full disk path
        (caller-Room before behind t a e) tty s.backends s.devices (caller before behind t a e) in
    let same : r' ≡ r = some-injective r' r (sym found ∙ c) in
    changed-IsAccounted before behind t a e r.1 r.2 r.3
      (subst (λ (x : OpenResult Fat16). length x.1 ≡ 16) same size)
      (subst (λ (x : OpenResult Fat16). IsReferenced (x.1 ++ others before behind) x.2.disk) same
        kept)
Step-IsAccounted {s = s} (closes before behind t fd r e c) a =
    let full = (others-full before behind t a e).1 in
    changed-IsAccounted before behind t a e r.1 r.2 s.devices
      (subst (λ (x : ℤ × List ℤ × Backends Fat16). length x.1 ≡ 16) c
        (length-vfs_close (some fat16_driver) fd t s.backends ∙ full))
      (subst
        (λ (x : ℤ × List ℤ × Backends Fat16). IsReferenced (x.1 ++ others before behind) x.2.disk) c
        (vfs_close-IsReferenced (others before behind) t s.backends full
          (omega (arith, caller-Room before behind t a e)) (caller before behind t a e) fd))
Step-IsAccounted {s = s} (dups before behind t tty oldfd newfd r e c) a =
    let full = (others-full before behind t a e).1 in
    changed-IsAccounted before behind t a e r.1 r.2 s.devices
      (subst (λ (x : ℤ × List ℤ × Backends Fat16). length x.1 ≡ 16) c
        (length-vfs_dup2 (some fat16_driver) tty oldfd newfd t s.backends ∙ full))
      (subst
        (λ (x : ℤ × List ℤ × Backends Fat16). IsReferenced (x.1 ++ others before behind) x.2.disk) c
        (vfs_dup2-IsReferenced (others before behind) t s.backends full
          (omega (arith, caller-Room before behind t a e)) (caller before behind t a e) tty oldfd
          newfd))
Step-IsAccounted {s = s} (forks before behind t r e small c) a =
    let out = vfs_fork_fds (some fat16_driver) t s.backends in
    let tables = flatten s.tables in
    let child = child-parent (some fat16_driver) t s.backends in
    let shared = others before behind in
    let h =
      vfs_fork_fds-IsReferenced t shared s.backends
        (omega (
          arith,
          small,
          length-append t tables,
          length-append t (t ++ shared),
          length-append t shared,
          ap (λ l. length (flatten l)) e,
          length-flatten before behind t,
        ))
        (caller before behind t a e) in
    subst
      (λ (x : List ℤ × Backends Fat16).
        IsAccounted (record s { tables = x.0 ∷ s.tables; backends = x.1 }))
      c
      (record {
        tables = (ap length child ∙ (others-full before behind t a e).1, a.tables);
        room = omega (arith, small, ap (λ l. length (l ++ tables)) child);
        referenced = record {
          table = h.table;
          refs = λ i. omega (
            arith,
            h.refs i,
            ap (λ l. file_held i (l ++ tables)) child,
            file_held-append i t tables,
            file_held-append i t (t ++ shared),
            file_held-append i t shared,
            ap (λ l. file_held i (flatten l)) e,
            file_held-flatten i before behind t,
          );
        };
      })
Step-IsAccounted {s = s} (exits before behind t r e c) a =
    let h = caller before behind t a e in
    record {
      tables = (others-full before behind t a e).0;
      room = omega (arith, total before behind t a e);
      referenced =
          subst (λ (x : List ℤ × Backends Fat16). IsReferenced (others before behind) x.1.disk) c
            (vfs_exit_fds-IsReferenced t (others before behind) s.backends
              (omega (arith, caller-Room before behind t a e)) h);
    }

-- From any system of tasks with 16 descriptors each, fewer than 2 ^ 32 - 2 in all, in which each
-- open file of the FAT16 driver counts the descriptors that hold it, the same holds after any
-- sequence of calls of vfs_open, on whatever path and disk, vfs_close, vfs_dup2, vfs_fork_fds and
-- vfs_exit_fds by whatever tasks, with forks while the descriptors stay fewer than 2 ^ 32 - 2.
pub Steps-IsAccounted :
    {disk : Disk} {s s' : System} → IsAccounted s → Steps disk s s' → IsAccounted s'
Steps-IsAccounted a here = a
Steps-IsAccounted a (next steps step) = Step-IsAccounted step (Steps-IsAccounted a steps)
