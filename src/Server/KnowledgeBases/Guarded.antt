-- ===== src/Server/KnowledgeBases/Guarded.antt =====
-- Which requests of internal/server/kbhandler.go change anything.
use dumpster.Prelude.{
  String, ◌≡◌, ◌≢◌, refl, ◌∙◌, ◌⊎◌, inl, inr, Option, none, some, str_eq, str_eq_iff,
}
use dumpster.Prelude.Tests.{Bool-cases}
use dumpster.Queue.Types.{Uuid}
use dumpster.Kb
use dumpster.Kb.{KnowledgeBase, Result, ok, err}
use dumpster.Server.KnowledgeBases.{
  Repository, Request, create, list, get, rename, delete, Response, serve, created, renamed,
  deleted, with_name,
}

created-state : {W : Type 0} (o : Result KnowledgeBase × W) → (created o).1 ≡ o.1
unfolding created
created-state (err e, w) = refl
created-state (ok k, w) = refl

deleted-state : {W : Type 0} (o : Option Kb.Error × W) → (deleted o).1 ≡ o.1
unfolding deleted
deleted-state (some e, w) = refl
deleted-state (none, w) = refl

module _ {W : Type 0} (repo : Repository W) where
  -- What a request may change: nothing, or what one call of the repository does for the request's own
  -- user, with a name that is not empty where it has one.
  abbrev pub Change : Request → W → W → Type 0
  Change (create user body) w t =
      (t ≡ w)
      ⊎ ((u : Uuid) × (name : String) × (user ≡ some u)
          × (name ≢ "")
          × (body ≡ some name)
          × (t ≡ (repo.create u name w).1))
  Change (list user limit after) w t = t ≡ w
  Change (get user id) w t = t ≡ w
  Change (rename user id body) w t =
      (t ≡ w)
      ⊎ ((u i : Uuid) × (name : String) × (user ≡ some u)
          × (id ≡ some i)
          × (name ≢ "")
          × (body ≡ some name)
          × (t ≡ (repo.rename u i name w).1))
  Change (delete user id) w t =
      (t ≡ w) ⊎ ((u i : Uuid) × (user ≡ some u) × (id ≡ some i) × (t ≡ (repo.delete u i w).1))

  with_name-state :
      (body : Option String) (next : String → W → Response × W) (w : W)
      → ((with_name repo body next w).1 ≡ w)
        ⊎ ((name : String) × (name ≢ "")
            × (body ≡ some name)
            × ((with_name repo body next w).1 ≡ (next name w).1))
  unfolding with_name
  with_name-state none next w = inl refl
  with_name-state (some name) next w = elim (Bool-cases (str_eq name "")) [
    | inl empty ↦ inl (rw empty refl)
    | inr full ↦ inr (name, (λ e. cc (full, (str_eq_iff name "").1 e)), refl, rw full refl)
  ]

  -- A request changes nothing, or what one call of the repository does: creating, renaming or deleting
  -- for the authenticated user, under the ID of the path and with a name that is not empty.
  pub serve-Change : (r : Request) (w : W) → Change r w (serve repo r w).1
  unfolding serve renamed
  serve-Change (create none body) w = inl refl
  serve-Change (create (some u) body) w = elim (with_name-state body _ w) [
    | inl same ↦ inl same
    | inr (name, ne, e, t) ↦ inr (u, name, refl, ne, e, t ∙ created-state (repo.create u name w))
  ]
  serve-Change (list none limit after) w = refl
  serve-Change (list (some u) limit after) w = refl
  serve-Change (get none id) w = refl
  serve-Change (get (some u) none) w = refl
  serve-Change (get (some u) (some i)) w = refl
  serve-Change (rename none id body) w = inl refl
  serve-Change (rename (some u) none body) w = inl refl
  serve-Change (rename (some u) (some i) body) w = elim (with_name-state body _ w) [
    | inl same ↦ inl same
    | inr (name, ne, e, t) ↦ inr (u, i, name, refl, refl, ne, e, t)
  ]
  serve-Change (delete none id) w = inl refl
  serve-Change (delete (some u) none) w = inl refl
  serve-Change (delete (some u) (some i)) w =
      inr (u, i, refl, refl, deleted-state (repo.delete u i w))
