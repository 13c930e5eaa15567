-- ===== src/Events/Files.antt =====
-- getFileSubject of frontend/app/store/wps.ts, and the handler of "blockfile" events that
-- frontend/app/store/global.ts subscribes. A subject is an object: `objects` has every one that was
-- made, also those that are no longer in the map. What its observers do is not modelled.
pub mod Objects
pub mod Tracked
pub mod Holders
pub mod Leaks
mod Tests
use Prim.Native.String.{◌++◌}
use testmerge.Base.{
  ℕ, zero, suc, ◌+◌, String, Bool, true, false, Option, none, some, List, [], ◌∷◌, ◌==◌,
  if◌then◌else◌,
}
use testmerge.Base.Int.{ℤ, pos, negsuc, ◌+ℤ◌, ◌-ℤ◌}
use testmerge.Base.Maps
use testmerge.Base.Maps.{Map}

-- The key is what the closure `release` has of it.
pub record FileSubject : Type 0 where
  pub key : String
  pub ref_count : ℤ
  pub completed : Bool

abbrev pub Objects : Type 0
Objects = ℕ → Option FileSubject

pub record FileSubjects : Type 0 where
  pub by_key : Map ℕ
  pub objects : Objects
  pub allocated : ℕ

abbrev pub write : Objects → ℕ → FileSubject → Objects
write objects i o j = if i == j then some o else objects j

abbrev pub is_zero : ℤ → Bool
is_zero (pos n) = n == 0
is_zero (negsuc n) = false

abbrev pub count_up : FileSubject → FileSubject
count_up o = record o { ref_count = o.ref_count +ℤ pos 1 }

abbrev pub count_down : FileSubject → FileSubject
count_down o = record o { ref_count = o.ref_count -ℤ pos 1 }

abbrev pub complete : FileSubject → FileSubject
complete o = record o { completed = true }

abbrev pub referred : FileSubjects → ℕ → Option FileSubject → FileSubjects
referred s i none = s
referred s i (some o) = record s { objects = write s.objects i (count_up o) }

abbrev pub new_subject : String → FileSubject
new_subject key = record { key = key; ref_count = pos 0; completed = false }

abbrev pub made : FileSubjects → String → FileSubjects
made s key = record {
  by_key = Maps.set s.by_key key s.allocated;
  objects = write s.objects s.allocated (new_subject key);
  allocated = suc s.allocated;
}

abbrev pub open_at : FileSubjects → String → Option ℕ → FileSubjects × ℕ
open_at s key (some i) = (referred s i (s.objects i), i)
open_at s key none =
    let s' = made s key in (referred s' s.allocated (s'.objects s.allocated), s.allocated)

abbrev pub subject_key : String → String → String
subject_key zone_id file_name = zone_id ++ ("|" ++ file_name)

unfoldable pub get_file_subject : FileSubjects → String → String → FileSubjects × ℕ
get_file_subject s zone_id file_name =
    let key = subject_key zone_id file_name in open_at s key (Maps.get s.by_key key)

abbrev pub released : FileSubjects → ℕ → Option FileSubject → FileSubjects
released s i none = s
released s i (some o) =
    if is_zero (count_down o).ref_count
    then record s {
      objects = write s.objects i (complete (count_down o));
      by_key = Maps.delete s.by_key o.key;
    }
    else record s { objects = write s.objects i (count_down o) }

-- The closure that the subject `i` was given.
unfoldable pub release : FileSubjects → ℕ → FileSubjects
release s i = released s i (s.objects i)

-- WSFileEventData
pub record FileEvent : Type 0 where
  pub zone_id : String
  pub file_name : String
  pub file_op : String
  pub data64 : String

-- The handler of "blockfile": the subject on which it calls `next` with the event's data.
unfoldable pub handle_blockfile : FileSubjects → FileEvent → FileSubjects × ℕ
unfolding get_file_subject
handle_blockfile s ev = get_file_subject s ev.zone_id ev.file_name
