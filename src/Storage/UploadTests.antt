-- ===== src/Storage/UploadTests.antt =====
-- The theorems on Upload and Delete at concrete inputs.
use athens.Prelude.{
  ◌≡◌, ◌≢◌, refl, ◌+◌, ◌≤◌, Bool, true, false, Option, none, some, List, [], ◌∷◌, ◌==◌, text_eq,
  text_beq, text_beq_iff, Text, text, lookup, insert, lookup-insert, length, inl, inr, Bool-cases,
  arith,
}
use athens.Errors.{GoError, plain}
use athens.Storage.Parallel.{
  File, info_file, mod_file, zip_file, file_path, Worker, Pool, worker, num_files, sent, calling,
  offering, reported, Step, expires, returns, takes, aborts, receives, Reach, here, next, returned,
  started, upload_call, delete_call, give_up,
}
use athens.Storage.Parallel.Counts.{err_chan_fits}
use athens.Storage.Parallel.Ends.{IsAbandoned, Reach-IsAbandoned}
use athens.Storage.Parallel.Returns.{AreStill, Reach_returned}
use athens.Storage.Parallel.Names.{upload_saved}

abbrev Files : Type 0
Files = List (Text × Text)

-- A backend that keeps the files in a table and never fails.
abbrev put : Bool → Text → Text → Text → Files → Option GoError × Files
put expired path type_ data_ s = (none, insert s path data_)

abbrev content : File → Text
content info_file = text "{}"
content mod_file = text "module m"
content zip_file = text "PK"

abbrev upload : Bool → File → Files → Option GoError × Files
upload = upload_call (text "m") (text "v1") put content

abbrev too_late : File → GoError
too_late = give_up (text "uploading") (text "m") (text "v1") (plain (text "deadline"))

put-stores :
    (expired : Bool) (path type_ data_ : Text) (s : Files)
    → (put expired path type_ data_ s).0 ≡ none
    → lookup (put expired path type_ data_ s).1 path ≡ some data_
put-stores expired path type_ data_ s h =
    rw (lookup-insert s path data_ path, (text_beq_iff path path).1 refl) refl

put-keeps :
    (expired : Bool) (path type_ data_ other : Text) (s : Files)
    → other ≢ path
    → lookup (put expired path type_ data_ s).1 other ≡ lookup s other
put-keeps expired path type_ data_ other s differ = elim (Bool-cases (other == path)) [
  | inl same ↦ absurd (differ ((text_beq_iff other path).0 same))
  | inr apart ↦ rw (lookup-insert s path data_ other, apart) refl
]

abbrev at_end : Worker
at_end = record { inner = sent none; outer = reported none }

abbrev stored_last : Pool Files
stored_last = record {
  store =
      (text "m/@v/v1.zip", text "PK")
      ∷ (text "m/@v/v1.info", text "{}")
      ∷ (text "m/@v/v1.mod", text "module m")
      ∷ [];
  info_worker = at_end;
  mod_worker = at_end;
  zip_worker = at_end;
  err_chan = [];
  received = none ∷ none ∷ none ∷ [];
  expired = false;
}

-- A run in which the zip is done and received first.
zip_first : Reach upload too_late (started []) stored_last
unfolding insert text_beq athens.Storage.Parallel.call_returns athens.Storage.Parallel.take_result
    athens.Storage.Parallel.receive
zip_first =
    next
      (next
        (next
          (next
            (next
              (next
                (next (next (next here (returns zip_file refl)) (takes zip_file none refl refl))
                  (receives none [] (omega arith) refl))
                (returns info_file refl))
              (returns mod_file refl))
            (takes mod_file none refl refl))
          (takes info_file none refl refl))
        (receives none (none ∷ []) (omega arith) refl))
      (receives none [] (omega arith) refl)

upload_saved_example :
    lookup stored_last.store (file_path (text "m") (text "v1") zip_file) ≡ some (content zip_file)
unfolding returned
upload_saved_example =
    upload_saved lookup (text "m") (text "v1") put content (plain (text "deadline")) put-stores
      put-keeps [] stored_last zip_first refl zip_file

err_chan_fits_example :
    (length stored_last.received + length stored_last.err_chan ≤ num_files)
    × (length stored_last.received ≤ num_files)
err_chan_fits_example = err_chan_fits upload too_late [] stored_last zip_first

Reach_returned_example :
    (q : Pool Files) × Reach upload too_late stored_last q
    × AreStill stored_last q
    × ((answer : Option (Text × List GoError)) × (returned (text "module.Upload") q ≡ some answer))
Reach_returned_example =
    Reach_returned upload too_late (text "module.Upload") [] stored_last zip_first

-- The info is given up, and its call returns later.
abbrev given_up : Pool Files
given_up = record (started []) {
  info_worker = record { inner = calling; outer = reported (some (too_late info_file)) };
  err_chan = some (too_late info_file) ∷ [];
  expired = true;
}

abbrev returned_late : Pool Files
returned_late = record given_up {
  store = (text "m/@v/v1.info", text "{}") ∷ [];
  info_worker = record { inner = offering none; outer = reported (some (too_late info_file)) };
}

late : Reach upload too_late given_up returned_late
unfolding insert athens.Storage.Parallel.call_returns
late = next here (returns info_file refl)

Reach-IsAbandoned_example : IsAbandoned returned_late.info_worker
Reach-IsAbandoned_example =
    Reach-IsAbandoned upload too_late info_file late (inl refl, (some (too_late info_file), refl))
