-- ===== src/Queue/Unpack.antt =====
-- What the consumers of src/kiroku/queue.py get of the entries of a stream.
use bmu.Prelude.{String, ◌≡◌, false, Option, some, List, [], ◌∷◌, ◌↔◌, inl, inr, arith}
use bmu.Prelude.{In, Some, Some-append, Option-cases, Bool-cases}
use bmu.Text.{is_empty}
use bmu.Runtime.{row_get}
use bmu.Queue.{Entry, unpack_entries, unpack}

module _ {M : Type 0} (load : String → Option M) where
  -- The entry has the id, and a data field that decodes to the message.
  abbrev pub Carries : String → M → Entry → Type 0
  Carries id m (i, fields) =
      (id ≡ i)
      × (d : String) × (row_get "data" fields ≡ some d)
      × (is_empty d ≡ false)
      × (load d ≡ some m)

  unpack_entries_iff :
      (id : String) (m : M) (es : List Entry)
      → In (id, m) (unpack_entries load es) ↔ Some (Carries id m) es
  unfolding unpack_entries
  unpack_entries_iff id m [] = (λ h. h, λ h. h)
  unpack_entries_iff id m ((i, fields) ∷ es) = elim (Option-cases (row_get "data" fields)) [
    | inl absent ↦ ground (arith, absent, unpack_entries_iff id m es)
    | inr (d, there) ↦ elim (Bool-cases (is_empty d)) [
      | inl blank ↦ ground (arith, there, blank, unpack_entries_iff id m es)
      | inr full ↦ elim (Option-cases (load d)) [
        | inl bad ↦ ground (arith, there, full, bad, unpack_entries_iff id m es)
        | inr (n, good) ↦ ground (arith, there, full, good, unpack_entries_iff id m es)
      ]
    ]
  ]

  -- A consumer gets a message under an id exactly if some stream of the reply has an entry with that
  -- id whose data field is not empty and decodes to the message; the other entries are passed over.
  pub unpack_iff :
      (id : String) (m : M) (raw : List (String × List Entry))
      → In (id, m) (unpack load raw) ↔ Some (λ stream. Some (Carries id m) stream.1) raw
  unfolding unpack
  unpack_iff id m [] = (λ h. h, λ h. h)
  unpack_iff id m ((stream, msgs) ∷ rest) = ground (
    arith,
    unpack_iff id m rest,
    unpack_entries_iff id m msgs,
    Some-append (λ x. (id, m) ≡ x) (unpack_entries load msgs) (unpack load rest),
  )
