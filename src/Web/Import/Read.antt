-- ===== src/Web/Import/Read.antt =====
-- The cells of a row that passes the checks of src/kiroku/web/import_devices.py.
use bmu.Prelude.{
  ◌≡◌, refl, String, Bool, true, false, inl, inr, List, ok, not, contains, arith, Result-cases,
  string_eq, nat_eq,
}
use Prim.Native.String.{◌++◌ as ◌<>◌}
use bmu.Text.{is_empty, nonempty}
use bmu.Models.Credential.{Credential}
use bmu.Models.Device.{DeviceGroup}
use bmu.Web.Import.{
  CsvRow, Csv, Cells, cell, require, unless_blank, matched_groups, named_credential,
  named_transport, named_driver, parse_bool, check_row,
}

require_ok :
    (condition : Bool) (message : String) (a : Bool)
    → require condition message ≡ ok a
    → condition ≡ true
unfolding require
require_ok true message a h = refl
require_ok false message a h = absurd (cc)

module _ (csv : Csv) (headers : List (String × String)) (groups : List DeviceGroup)
    (creds : List Credential) where
  -- The values of a row are its cells, and its name is new.
  pub record IsRead (seen : List String) (row : CsvRow) (c : Cells) : Type 0 where
    pub name : c.name ≡ cell headers row "name"
    pub hostname : c.hostname ≡ cell headers row "hostname"
    pub role : c.role ≡ nonempty (cell headers row "role")
    pub worker_pool : c.worker_pool ≡ nonempty (cell headers row "worker_pool")
    pub new : contains c.name seen ≡ false

  pub check_row-IsRead :
      (seen : List String) (row : CsvRow) (c : Cells)
      → check_row csv headers groups creds seen row ≡ ok c
      → IsRead seen row c
  unfolding check_row
  check_row-IsRead seen row c h =
      let name = cell headers row "name" in
      elim (Result-cases (require (not (is_empty name)) "name is required")) [
        | inr (x, bad) ↦ absurd (ground (arith, bad, h))
        | inl (a0, e0) ↦
            elim (Result-cases
              (require (not (contains name seen)) ("duplicate name in file: " <> csv.repr name))) [
                | inr (x, bad) ↦ absurd (ground (arith, e0, bad, h))
                | inl (a1, e1) ↦
                    elim (Result-cases (
                      require (not (is_empty (cell headers row "hostname")))
                        "hostname is required")) [
                          | inr (x, bad) ↦ absurd (ground (arith, e0, e1, bad, h))
                          | inl (a2, e2) ↦
                              elim (Result-cases (unless_blank csv.int (cell headers row "port"))) [
                                | inr (x, bad) ↦ absurd (ground (arith, e0, e1, e2, bad, h))
                                | inl (a3, e3) ↦
                                    elim (Result-cases
                                      (matched_groups csv headers groups creds row)) [
                                        | inr (x, bad) ↦
                                            absurd (ground (arith, e0, e1, e2, e3, bad, h))
                                        | inl (a4, e4) ↦
                                            elim (Result-cases
                                              (named_credential csv headers groups creds row)) [
                                                | inr (x, bad) ↦
                                                    absurd
                                                      (ground (arith, e0, e1, e2, e3, e4, bad, h))
                                                | inl (a5, e5) ↦
                                                    elim (Result-cases (
                                                      named_transport csv headers groups creds
                                                        row)) [
                                                          | inr (x, bad) ↦ absurd (
                                                            ground
                                                            (arith, e0, e1, e2, e3, e4, e5, bad, h))
                                                          | inl (a6, e6) ↦
                                                            elim (Result-cases (
                                                            named_driver csv headers groups creds
                                                            row)) [
                                                              | inr (x, bad) ↦ absurd (
                                                                ground (
                                                                arith, e0, e1, e2, e3, e4, e5, e6,
                                                                bad, h,
                                                                ))
                                                              | inl (a7, e7) ↦
                                                                elim (Result-cases (
                                                                parse_bool csv
                                                                (cell headers row "enabled"))) [
                                                                  | inr (x, bad) ↦ absurd (
                                                                    ground (
                                                                    arith, e0, e1, e2, e3, e4, e5,
                                                                    e6, e7, bad, h,
                                                                    ))
                                                                  | inl (a8, e8) ↦ record {
                                                                  name = ground (
                                                                  arith, e0, e1, e2, e3, e4, e5, e6,
                                                                  e7, e8, h,
                                                                  );
                                                                  hostname = ground (
                                                                  arith, e0, e1, e2, e3, e4, e5, e6,
                                                                  e7, e8, h,
                                                                  );
                                                                  role = ground (
                                                                  arith, e0, e1, e2, e3, e4, e5, e6,
                                                                  e7, e8, h,
                                                                  );
                                                                  worker_pool = ground (
                                                                  arith, e0, e1, e2, e3, e4, e5, e6,
                                                                  e7, e8, h,
                                                                  );
                                                                  new = ground (
                                                                  arith,
                                                                  e0,
                                                                  e1,
                                                                  e2,
                                                                  e3,
                                                                  e4,
                                                                  e5,
                                                                  e6,
                                                                  e7,
                                                                  e8,
                                                                  h,
                                                                  require_ok _ _ a1 e1,
                                                                  );
                                                                  }
                                                                ]
                                                            ]
                                                        ]
                                              ]
                                      ]
                              ]
                        ]
              ]
      ]
