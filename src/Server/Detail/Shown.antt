-- ===== src/Server/Detail/Shown.antt =====
-- Whom get and content of internal/server/dochandler.go show what.
use dumpster.Prelude.{String, ◌≡◌, refl, sym, ap, ◌∙◌, ◌⊎◌, subst, inl, inr, Option, none, some}
use dumpster.Prelude.Tests.{Bool-cases, Option-cases}
use dumpster.Prelude.Eq.{◌==◌, nat_eq}
use dumpster.Queue.Types.{Uuid}
use dumpster.Document
use dumpster.Document.{Document, IsScoped, ok, err}
use dumpster.Server.Documents.{Response, error, json, text, Request, Handler}
use dumpster.Server.Documents.Guarded.{get-row}
use dumpster.Server.Detail.{Reader, Detail, got, read_document, detail_of, get, served, content}

module _ {E W : Type 0} (h : Handler E W) (rd : Reader W) where
  -- A response of 200 is what the handler makes of a document that the user gets, in the knowledge base.
  record From (r : Request) (next : Uuid → Uuid → Document → Response Detail) (w : W)
      (out : Response Detail) : Type 0 where
    user : Uuid
    id : Uuid
    doc : Document
    of_user : r.user ≡ some user
    of_kb : r.kb_id ≡ some doc.kb_id
    of_id : r.doc_id ≡ some id
    row : h.docs.get user id w ≡ ok doc
    made : out ≡ next user id doc

  abbrev Refused : Response Detail → Type 0
  Refused (error n m) = Unit
  Refused out = ⊥

  got-From :
      (r : Request) (next : Uuid → Uuid → Document → Response Detail) (w : W) (user kb id : Uuid)
      (o : Document.Result Document)
      → r.user ≡ some user
      → r.kb_id ≡ some kb
      → r.doc_id ≡ some id
      → h.docs.get user id w ≡ o
      → Refused (got h rd kb (next user id) o) ⊎ From r next w (got h rd kb (next user id) o)
  got-From r next w user kb id (err Document.not_found) eu ek ed e = inl tt
  got-From r next w user kb id (err (Document.other m)) eu ek ed e = inl tt
  got-From r next w user kb id (ok doc) eu ek ed e = elim (Bool-cases (doc.kb_id == kb)) [
    | inr other ↦ rw other (inl tt)
    | inl same ↦ rw same (
        inr (record {
          user = user;
          id = id;
          doc = doc;
          of_user = eu;
          of_kb = ek ∙ ap some (sym ((nat_eq.same_iff doc.kb_id kb).0 same));
          of_id = ed;
          row = e;
          made = refl;
        }))
  ]

  read_document-From :
      (r : Request) (next : Uuid → Uuid → Document → Response Detail) (w : W)
      → Refused (read_document h rd r next w) ⊎ From r next w (read_document h rd r next w)
  unfolding read_document
  read_document-From r next w = elim (Option-cases r.user) [
    | inl nu ↦ rw (nu, read_document) (inl tt)
    | inr (user, eu) ↦ elim (Option-cases r.kb_id) [
      | inl nk ↦ rw (eu, nk, read_document) (inl tt)
      | inr (kb, ek) ↦ elim (Option-cases r.doc_id) [
        | inl nd ↦ rw (eu, ek, nd, read_document) (inl tt)
        | inr (id, ed) ↦
            let e : read_document h rd r next w
                ≡ got h rd kb (next user id) (h.docs.get user id w) =
              rw (eu, ek, ed, read_document) refl in
            subst (λ (x : Response Detail). Refused x ⊎ From r next w x) (sym e)
              (got-From r next w user kb id _ eu ek ed refl)
      ]
    ]
  ]

module _ {E W : Type 0} (h : Handler E W) (rd : Reader W) (scoped : IsScoped h.docs) where
  -- The request's user owns the document, in the request's knowledge base, and the request names it.
  pub record Owned (r : Request) (w : W) (doc : Document) : Type 0 where
    pub id : Uuid
    pub of_user : r.user ≡ some doc.user_id
    pub of_kb : r.kb_id ≡ some doc.kb_id
    pub of_id : r.doc_id ≡ some id
    pub is_row : scoped.row w id ≡ some doc

  From-Owned :
      (r : Request) (next : Uuid → Uuid → Document → Response Detail) (w : W)
      (out : Response Detail) (f : From h rd r next w out)
      → Owned r w f.doc
  From-Owned r next w out f =
      let (here, owner) = get-row h.docs scoped f.user f.id w f.doc f.row in
      record {
        id = f.id;
        of_user = f.of_user ∙ ap some (sym owner);
        of_kb = f.of_kb;
        of_id = f.of_id;
        is_row = here;
      }

  json_eq : (a b : Detail) → Response.json 200 a ≡ json 200 b → a.document ≡ b.document
  json_eq a b e = cc

  served-text : (o : Option String) (body : String) → served h rd o ≡ text body → o ≡ some body
  served-text none body e = absurd (cc)
  served-text (some x) body e = cc

  -- When get shows a document, the request's user owns it, it is in the request's knowledge base and
  -- is the one that the request names; and when content sends a text, it is the stored object of such a
  -- document. The repository of documents is scoped to its users.
  pub read-Owned :
      (r : Request) (w : W)
      → ((detail : Detail) → get h rd r w ≡ json 200 detail → Owned r w detail.document)
        × ((body : String)
            → content h rd r w ≡ text body
            → (doc : Document) × Owned r w doc × (rd.objects_get doc.s3_key w ≡ some body))
  unfolding get content
  read-Owned r w = (
    λ detail e.
        elim (read_document-From h rd r (λ user id doc. json 200 (detail_of h rd w user id doc))
          w) [
            | inl refused ↦ absurd (subst (Refused h rd) e refused)
            | inr f ↦ subst (Owned r w) (json_eq _ detail (sym f.made ∙ e)) (From-Owned r _ w _ f)
          ],
    λ body e.
        elim (read_document-From h rd r (λ user id doc. served h rd (rd.objects_get doc.s3_key w))
          w) [
            | inl refused ↦ absurd (subst (Refused h rd) e refused)
            | inr f ↦ (f.doc, From-Owned r _ w _ f, served-text _ body (sym f.made ∙ e))
          ],
  )
