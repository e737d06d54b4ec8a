-- ===== src/Storage/Parallel/Names.antt =====
-- Upload and Delete over a backend that keeps files by their paths.
use athens.Prelude.{
  ◌≡◌, ◌≢◌, refl, ap, ◌∙◌, ℕ, Bool, Option, none, some, [], ◌∷◌, ◌++◌, Text, text, arith,
}
use athens.Errors.{GoError}
use athens.Storage.Parallel.{
  File, info_file, mod_file, zip_file, ext, file_path, content_type, Pool, Reach, returned, started,
  upload_call, delete_call, give_up,
}
use athens.Storage.Parallel.Saved.{returned_done}

append-cancel : (xs ys zs : Text) → xs ++ ys ≡ xs ++ zs → ys ≡ zs
append-cancel [] ys zs h = h
append-cancel (x ∷ xs) ys zs h = append-cancel xs ys zs (cc)

abbrev first : Text → ℕ
first [] = 0
first (c ∷ s) = c

ext-injective : (f g : File) → ext f ≡ ext g → f ≡ g
ext-injective info_file info_file h = refl
ext-injective mod_file mod_file h = refl
ext-injective zip_file zip_file h = refl
ext-injective info_file mod_file h = absurd (omega (arith, ap first h))
ext-injective info_file zip_file h = absurd (omega (arith, ap first h))
ext-injective mod_file info_file h = absurd (omega (arith, ap first h))
ext-injective mod_file zip_file h = absurd (omega (arith, ap first h))
ext-injective zip_file info_file h = absurd (omega (arith, ap first h))
ext-injective zip_file mod_file h = absurd (omega (arith, ap first h))

file_path-injective :
    (module_path version : Text) (f g : File)
    → file_path module_path version f ≡ file_path module_path version g
    → f ≡ g
file_path-injective module_path version f g h = ext-injective f g (
    append-cancel (text ".") (ext f) (ext g) (
      append-cancel version (text "." ++ ext f) (text "." ++ ext g) (
        append-cancel (text "/@v/") (version ++ (text "." ++ ext f))
          (version ++ (text "." ++ ext g))
          (append-cancel module_path (text "/@v/" ++ (version ++ (text "." ++ ext f)))
            (text "/@v/" ++ (version ++ (text "." ++ ext g))) h))))

module _ {S : Type 0} (read : S → Text → Option Text) (module_path version : Text) where
  -- For a backend whose uploader stores the content at the path where it returns nil, and touches no
  -- other path whatever it returns: in every order of the steps of the goroutines, of the timeout and
  -- of the loop, an Upload that returns nil leaves all three files in the store, each with its content.
  pub upload_saved :
      (uploader : Bool → Text → Text → Text → S → Option GoError × S) (content : File → Text)
      (cause : GoError)
      (stores : (expired : Bool) (path type data_ : Text) (s : S)
        → (uploader expired path type data_ s).0 ≡ none
        → read (uploader expired path type data_ s).1 path ≡ some data_)
      (keeps : (expired : Bool) (path type data_ other : Text) (s : S)
        → other ≢ path
        → read (uploader expired path type data_ s).1 other ≡ read s other)
      (s : S) (p : Pool S)
      → Reach
          (upload_call module_path version uploader content)
          (give_up (text "uploading") module_path version cause)
          (started s)
          p
      → returned (text "module.Upload") p ≡ some none
      → (f : File) → read p.store (file_path module_path version f) ≡ some (content f)
  upload_saved uploader content cause stores keeps s p reached nil =
      returned_done (upload_call module_path version uploader content)
        (give_up (text "uploading") module_path version cause)
        (λ f t. read t (file_path module_path version f) ≡ some (content f))
        (λ expired f t fine.
          stores expired (file_path module_path version f) (content_type f) (content f) t fine)
        (λ expired f g t differ there.
          keeps expired (file_path module_path version g) (content_type g) (content g)
            (file_path module_path version f) t
            (λ same. differ (file_path-injective module_path version f g same))
          ∙ there)
        (text "module.Upload") s p reached nil

  -- For a backend whose deleter removes the path where it returns nil, and touches no other path
  -- whatever it returns: in every order of the steps, a Delete that returns nil leaves none of the
  -- three files in the store.
  pub delete_removed :
      (del : Bool → Text → S → Option GoError × S) (cause : GoError)
      (removes : (expired : Bool) (path : Text) (s : S)
        → (del expired path s).0 ≡ none
        → read (del expired path s).1 path ≡ none)
      (keeps : (expired : Bool) (path other : Text) (s : S)
        → other ≢ path
        → read (del expired path s).1 other ≡ read s other)
      (s : S) (p : Pool S)
      → Reach
          (delete_call module_path version del)
          (give_up (text "deleting") module_path version cause)
          (started s)
          p
      → returned (text "module.Delete") p ≡ some none
      → (f : File) → read p.store (file_path module_path version f) ≡ none
  delete_removed del cause removes keeps s p reached nil =
      returned_done (delete_call module_path version del)
        (give_up (text "deleting") module_path version cause)
        (λ f t. read t (file_path module_path version f) ≡ none)
        (λ expired f t fine. removes expired (file_path module_path version f) t fine)
        (λ expired f g t differ there.
          keeps expired (file_path module_path version g) (file_path module_path version f) t
            (λ same. differ (file_path-injective module_path version f g same))
          ∙ there)
        (text "module.Delete") s p reached nil
