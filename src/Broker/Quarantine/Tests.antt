-- ===== src/Broker/Quarantine/Tests.antt =====
-- Two objects in a quarantine for three.
use tentaflake.Broker.Quarantine.{
  Quarantine, Object, Storing, usage_from, is_safe, store, fill_object, new_object, check_store,
  usage, valid_object_id, Opening, open_quarantine,
}
use tentaflake.Broker.Quarantine.Capacity.{
  Fits, total, Call, stores, stores-Fits, stores-store, find_object,
}
use tentaflake.Prelude.{ok, length, refl, true, false, some, [], ◌∷◌, arith, List, codes, ◌≡◌}

abbrev quarantine : Quarantine
quarantine = record { uid = 991; max_bytes = 100; max_entries = 3 }

abbrev succeeds : Storing
succeeds = record {
  locks = true;
  scans = true;
  creates = true;
  reserves = true;
  syncs_reservation = true;
  syncs_entry = true;
  writes = true;
  syncs_object = true;
}

-- The second call fails after it has created its object.
abbrev calls : List Call
calls =
    record { answers = succeeds; id = codes "20-1"; bytes = codes "second" }
    ∷ record {
      answers = record succeeds { writes = false };
      id = codes "20-2";
      bytes = codes "third";
    }
    ∷ record { answers = succeeds; id = codes "20-3"; bytes = codes "fourth" }
    ∷ []

abbrev stored : List Object
stored = new_object quarantine (codes "20-0") 5 (some (codes "first")) ∷ []

abbrev opening : Opening
opening = record {
  euid = 991;
  parent = some (0, 0o755);
  creates = true;
  directory = some (991, 0o700);
  owns = true;
  scans = true;
}

stores-Fits_example :
    Fits quarantine (stores quarantine calls stored)
    × (usage quarantine true (stores quarantine calls stored)
        ≡ ok (total (stores quarantine calls stored), length (stores quarantine calls stored)))
unfolding open_quarantine usage usage_from is_safe new_object
stores-Fits_example = stores-Fits opening true 100 3 quarantine calls stored (omega arith) refl

stores-store_example :
    find_object (codes "20-0") (stores quarantine calls stored)
    ≡ some (new_object quarantine (codes "20-0") 5 (some (codes "first")))
unfolding store check_store usage usage_from is_safe valid_object_id fill_object new_object
stores-store_example =
    stores-store quarantine succeeds (codes "20-0") (codes "first") calls [] stored refl
