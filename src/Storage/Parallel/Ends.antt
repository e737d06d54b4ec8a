-- ===== src/Storage/Parallel/Ends.antt =====
-- What Upload and Delete may leave behind.
use athens.Prelude.{◌≡◌, ◌≢◌, refl, ◌⊎◌, inl, inr, Bool, true, Option, some, nat_eq}
use athens.Errors.{GoError}
use athens.Storage.Parallel.{
  File, info_file, mod_file, zip_file, calling, offering, sent, reported, Worker, Pool, worker,
  set_worker, call_returns, take_result, abort, receive, Step, expires, returns, takes, aborts,
  receives, Reach, here, next,
}

File-cases : (f g : File) → (f ≡ g) ⊎ (f ≢ g)
File-cases info_file info_file = inl refl
File-cases mod_file mod_file = inl refl
File-cases zip_file zip_file = inl refl
File-cases info_file mod_file = inr (λ e. absurd (cc))
File-cases info_file zip_file = inr (λ e. absurd (cc))
File-cases mod_file info_file = inr (λ e. absurd (cc))
File-cases mod_file zip_file = inr (λ e. absurd (cc))
File-cases zip_file info_file = inr (λ e. absurd (cc))
File-cases zip_file mod_file = inr (λ e. absurd (cc))

-- A goroutine that nobody listens to: its caller has reported, and it has not sent.
abbrev pub IsAbandoned : Worker → Type 0
IsAbandoned w =
    ((w.inner ≡ calling) ⊎ ((result : Option GoError) × (w.inner ≡ offering result)))
    × ((result : Option GoError) × (w.outer ≡ reported result))

module _ {S : Type 0} where
  worker-set_worker : (f : File) (w : Worker) (p : Pool S) → worker f (set_worker f w p) ≡ w
  worker-set_worker info_file w p = refl
  worker-set_worker mod_file w p = refl
  worker-set_worker zip_file w p = refl

  worker-set_other :
      (f g : File) (w : Worker) (p : Pool S) → f ≢ g → worker f (set_worker g w p) ≡ worker f p
  worker-set_other info_file info_file w p h = absurd (h refl)
  worker-set_other mod_file mod_file w p h = absurd (h refl)
  worker-set_other zip_file zip_file w p h = absurd (h refl)
  worker-set_other info_file mod_file w p h = refl
  worker-set_other info_file zip_file w p h = refl
  worker-set_other mod_file info_file w p h = refl
  worker-set_other mod_file zip_file w p h = refl
  worker-set_other zip_file info_file w p h = refl
  worker-set_other zip_file mod_file w p h = refl

  -- The goroutines are the same in two states.
  AreSame : Pool S → Pool S → Type 0
  AreSame p q =
      (p.info_worker ≡ q.info_worker)
      × (p.mod_worker ≡ q.mod_worker)
      × (p.zip_worker ≡ q.zip_worker)

  worker-AreSame : (f : File) (p q : Pool S) → AreSame p q → worker f p ≡ worker f q
  unfolding AreSame
  worker-AreSame info_file p q (a, b, c) = a
  worker-AreSame mod_file p q (a, b, c) = b
  worker-AreSame zip_file p q (a, b, c) = c

  IsAbandoned-set :
      (f g : File) (w : Worker) (p q : Pool S)
      → AreSame q (set_worker g w p)
      → (IsAbandoned (worker g p) → IsAbandoned w)
      → IsAbandoned (worker f p)
      → IsAbandoned (worker f q)
  IsAbandoned-set f g w p q same stays h =
      rw (worker-AreSame f q (set_worker g w p) same) (elim (File-cases f g) [
        | inl here_ ↦ rw (here_, worker-set_worker g w p) (stays (rw here_ at h))
        | inr other ↦ rw (worker-set_other f g w p other) h
      ])

module _ {S : Type 0} (call : Bool → File → S → Option GoError × S) (reason : File → GoError) where
  Step-IsAbandoned :
      {p q : Pool S} (f : File)
      → Step call reason p q
      → IsAbandoned (worker f p)
      → IsAbandoned (worker f q)
  unfolding call_returns take_result abort receive AreSame
  Step-IsAbandoned {p} f expires h =
      rw (worker-AreSame f (record p { expired = true }) p (refl, refl, refl)) h
  Step-IsAbandoned {p} {q} f (returns g busy) h =
      IsAbandoned-set f g
        record { inner = offering (call p.expired g p.store).0; outer = (worker g p).outer } p q
        (refl, refl, refl) (λ (_, there). (inr ((call p.expired g p.store).0, refl), there)) h
  Step-IsAbandoned {p} {q} f (takes g result offered free) h =
      IsAbandoned-set f g record { inner = sent result; outer = reported result } p q
        (refl, refl, refl) (λ (_, (r, there)). absurd (cc (free, there))) h
  Step-IsAbandoned {p} {q} f (aborts g late free) h =
      IsAbandoned-set f g record { inner = (worker g p).inner; outer = reported (some (reason g)) }
        p q (refl, refl, refl) (λ (_, (r, there)). absurd (cc (free, there))) h
  Step-IsAbandoned {p} {q} f (receives result others few shape) h =
      rw (worker-AreSame f (receive result others p) p (refl, refl, refl)) h

  -- A goroutine of Upload or Delete whose caller gave up before it sent its error never sends it, and
  -- so never ends, in whatever order the others go on.
  pub Reach-IsAbandoned :
      {p q : Pool S} (f : File)
      → Reach call reason p q
      → IsAbandoned (worker f p)
      → IsAbandoned (worker f q)
  Reach-IsAbandoned f here h = h
  Reach-IsAbandoned f (next reached step) h =
      Step-IsAbandoned f step (Reach-IsAbandoned f reached h)
