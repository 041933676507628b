-- ===== src/Web/Import/Names.antt =====
-- The tables of devices in src/kiroku/web/import_devices.py, by name.
use bmu.Prelude.{
  ◌≡◌, refl, String, Option, none, some, List, [], ◌∷◌, ◌++◌, arith, if◌then◌else◌, ◌==◌, string_eq,
}
use bmu.Web.Import.{Entry, find_name, entry_name, Cells}
use bmu.Web.Import.Loading.{update_named, update_entry}

abbrev pub find_entry : String → List Entry → Option Entry
find_entry n es = find_name entry_name n es

-- The entry with a name is changed, and no other, by a change that keeps the name.
pub find_entry-update_named :
    (n m : String) (f : Entry → Entry) (es : List Entry)
    → ((e : Entry) → entry_name (f e) ≡ entry_name e)
    → find_entry m (update_named n f es) ≡ (
        if m == n
        then elim (find_entry m es) [ none ↦ none | some e ↦ some (f e) ]
        else find_entry m es)
unfolding find_name update_named
find_entry-update_named n m f [] h = ground arith
find_entry-update_named n m f (e ∷ es) h = ground (
  arith,
  find_entry-update_named n m f es h,
  h e,
  string_eq.same_iff m n,
  string_eq.same_iff (entry_name e) n,
  string_eq.same_iff (entry_name e) m,
  string_eq.same_iff (entry_name (f e)) m,
)

pub find_entry-append :
    (n : String) (es fs : List Entry)
    → find_entry n (es ++ fs) ≡ elim (find_entry n es) [ none ↦ find_entry n fs | some e ↦ some e ]
unfolding find_name
find_entry-append n [] fs = refl
find_entry-append n (e ∷ es) fs = ground (arith, find_entry-append n es fs)

pub name-update_entry : (c : Cells) (e : Entry) → entry_name (update_entry c e) ≡ entry_name e
unfolding update_entry
name-update_entry c e = refl
