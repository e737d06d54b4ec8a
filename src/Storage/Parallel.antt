-- ===== src/Storage/Parallel.antt =====
-- pkg/storage/module: Upload and Delete, which work on the three files of a version at the same time
-- and give up after a timeout, and the names of the files from pkg/config/module.go. The goroutines
-- are a state machine: what one does between two operations on a channel is a step. The function of
-- the backend that is called, and whether a call returns before the timeout, are parameters.
pub mod Counts
pub mod Saved
pub mod Ends
pub mod Returns
pub mod Names
use athens.Prelude.{
  ◌≡◌, ℕ, ◌<◌, Bool, true, false, Option, none, some, List, [], ◌∷◌, ◌++◌, ◌==◌, nat_eq,
  if◌then◌else◌, Text, text, length, is_empty,
}
use athens.Errors.{GoError, wrapped}

abbrev pub num_files : ℕ
num_files = 3

-- The files of a version; their names are the extensions of the paths.
pub data File : Type 0 where
  info_file mod_file zip_file : File

abbrev pub ext : File → Text
ext info_file = text "info"
ext mod_file = text "mod"
ext zip_file = text "zip"

-- config.PackageVersionedName
abbrev pub package_versioned_name : Text → Text → Text → Text
package_versioned_name module_path version ext =
    module_path ++ (text "/@v/" ++ (version ++ (text "." ++ ext)))

abbrev pub content_type : File → Text
content_type info_file = text "application/json"
content_type mod_file = text "text/plain"
content_type zip_file = text "application/octet-stream"

-- The goroutine of `save` and `delFn`: it calls the backend, offers the error on its channel, and
-- has sent it.
pub data Inner : Type 0 where
  calling : Inner
  offering : Option GoError → Inner
  sent : Option GoError → Inner

-- The goroutine of `saveOrAbort` and `delOrAbort`: it selects, and has written to errChan.
pub data Outer : Type 0 where
  selecting : Outer
  reported : Option GoError → Outer

pub record Worker : Type 0 where
  pub inner : Inner
  pub outer : Outer

-- The store of the backend, the goroutines, what is in errChan, what the loop has received, and
-- whether the context is done.
pub record Pool (S : Type 0) : Type 0 where
  pub store : S
  pub info_worker : Worker
  pub mod_worker : Worker
  pub zip_worker : Worker
  pub err_chan : List (Option GoError)
  pub received : List (Option GoError)
  pub expired : Bool

-- `errs` after the loop.
unfoldable pub failures : List (Option GoError) → List GoError
failures [] = []
failures (result ∷ results) = elim result [
  | none ↦ failures results
  | some e ↦ e ∷ failures results
]

module _ {S : Type 0} where
  abbrev pub worker : File → Pool S → Worker
  worker info_file p = p.info_worker
  worker mod_file p = p.mod_worker
  worker zip_file p = p.zip_worker

  abbrev pub set_worker : File → Worker → Pool S → Pool S
  set_worker info_file w p = record p { info_worker = w }
  set_worker mod_file w p = record p { mod_worker = w }
  set_worker zip_file w p = record p { zip_worker = w }

  -- The call of the backend returns.
  unfoldable pub call_returns : File → Option GoError → S → Pool S → Pool S
  call_returns f result store p =
      record (set_worker f record { inner = offering result; outer = (worker f p).outer } p) {
        store = store;
      }

  -- The two cases of the select, which both write to errChan.
  unfoldable pub take_result : File → Option GoError → Pool S → Pool S
  take_result f result p =
      record (set_worker f record { inner = sent result; outer = reported result } p) {
        err_chan = p.err_chan ++ result ∷ [];
      }

  unfoldable pub abort : File → GoError → Pool S → Pool S
  abort f reason p =
      record (set_worker f record { inner = (worker f p).inner; outer = reported (some reason) }
        p) { err_chan = p.err_chan ++ some reason ∷ [] }

  -- `<-errChan` in the loop.
  unfoldable pub receive : Option GoError → List (Option GoError) → Pool S → Pool S
  receive result others p = record p { err_chan = others; received = p.received ++ result ∷ [] }

  -- The steps, where `call` is what the backend does for a file, with a context that is done or not.
  pub data Step (call : Bool → File → S → Option GoError × S) (reason : File → GoError)
      : Pool S → Pool S → Type 0 where
    expires : {p : Pool S} → Step call reason p (record p { expired = true })
    returns :
        {p : Pool S} (f : File)
        → (worker f p).inner ≡ calling
        → Step call reason p
            (call_returns f (call p.expired f p.store).0 (call p.expired f p.store).1 p)
    takes :
        {p : Pool S} (f : File) (result : Option GoError)
        → (worker f p).inner ≡ offering result
        → (worker f p).outer ≡ selecting
        → Step call reason p (take_result f result p)
    aborts :
        {p : Pool S} (f : File)
        → p.expired ≡ true
        → (worker f p).outer ≡ selecting
        → Step call reason p (abort f (reason f) p)
    receives :
        {p : Pool S} (result : Option GoError) (others : List (Option GoError))
        → length p.received < num_files
        → p.err_chan ≡ result ∷ others
        → Step call reason p (receive result others p)

  pub data Reach (call : Bool → File → S → Option GoError × S) (reason : File → GoError)
      (p : Pool S) : Pool S → Type 0 where
    here : Reach call reason p p
    next : {q r : Pool S} → Reach call reason p q → Step call reason q r → Reach call reason p r

  -- What Upload and Delete return: nothing yet before the loop is done, then nil or an error of the
  -- op that wraps the failures.
  unfoldable pub returned : Text → Pool S → Option (Option (Text × List GoError))
  unfolding failures
  returned op p =
      if length p.received == num_files
      then some (if is_empty (failures p.received) then none else some (op, failures p.received))
      else none

abbrev pub started : {S : Type 0} → S → Pool S
started store = record {
  store = store;
  info_worker = record { inner = calling; outer = selecting };
  mod_worker = record { inner = calling; outer = selecting };
  zip_worker = record { inner = calling; outer = selecting };
  err_chan = [];
  received = [];
  expired = false;
}

-- The message of the context's error: the deadline, or the cancellation of the caller's context.
abbrev pub give_up : Text → Text → Text → GoError → File → GoError
give_up doing module_path version cause f =
    wrapped
      (doing
        ++ text " "
        ++ module_path
        ++ text "."
        ++ version
        ++ text "."
        ++ ext f
        ++ text " failed: ")
      cause

abbrev pub file_path : Text → Text → File → Text
file_path module_path version f = package_versioned_name module_path version (ext f)

-- What the goroutines of Upload and Delete call, for a module and a version.
module _ {S : Type 0} (module_path version : Text) where
  -- uploader is the function of the backend, with whether the context is done, the path, the content
  -- type and the content.
  abbrev pub upload_call :
      (Bool → Text → Text → Text → S → Option GoError × S)
      → (File → Text)
      → Bool
      → File
      → S
      → Option GoError × S
  upload_call uploader content expired f store =
      uploader expired (file_path module_path version f) (content_type f) (content f) store

  abbrev pub delete_call :
      (Bool → Text → S → Option GoError × S) → Bool → File → S → Option GoError × S
  delete_call del expired f store = del expired (file_path module_path version f) store
