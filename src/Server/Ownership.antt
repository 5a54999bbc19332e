-- ===== src/Server/Ownership.antt =====
-- What single writes of push_relay/app.py do to the ownership of push tokens.
use pbxpulse_agent.Prelude.{
  String, ◌≡◌, refl, ◌∙◌, ap, sym, true, ◌==◌, eq_iff, nat_eq, arith, if◌then◌else◌, Bool-cases,
  inl, inr,
}
use pbxpulse_agent.Json
use pbxpulse_agent.Json.{Json, Fields, str, end, field}
use pbxpulse_agent.Devices.{fcm_token}
use pbxpulse_agent.Server.Store.{Firestore, fields_or, token_path, pointer_path}
use pbxpulse_agent.Server.Paths.{tag, token_path-differs, differs-token_path}
use pbxpulse_agent.Server.Auth.{Env}
use pbxpulse_agent.Server.Tokens.{token_at, owner_at, has_owner, names_device, IsOwned, IsOwnedBut}

module _ (fs : Firestore) (env : Env) where
  open fs use {Db, get}

  pub IsOwned-but : (path : String) (d : Db) → IsOwned fs env d → IsOwnedBut fs env path d
  unfolding IsOwned IsOwnedBut
  IsOwned-but path d h = (λ p. rw (h.0 p) (ground arith), h.1)

  deleted-token_at :
      (d : Db) (p r : String)
      → token_at fs env (fs.delete d p) r ≡ (if p == r then "" else token_at fs env d r)
  unfolding token_at
  deleted-token_at d p r = rw fs.get-delete (elim (Bool-cases (p == r)) [
    | inl e ↦ rw e (unfold fcm_token Json.has in refl)
    | inr e ↦ rw e refl
  ])

  deleted-owner_at :
      (d : Db) (p g : String)
      → owner_at fs env (fs.delete d p) g ≡ (if p == token_path g then "" else owner_at fs env d g)
  unfolding owner_at
  deleted-owner_at d p g =
      rw fs.get-delete
        (elim (Bool-cases (p == token_path g)) [ inl e ↦ rw e refl | inr e ↦ rw e refl ])

  -- A document is deleted, whatever token it had.
  pub deleted-IsOwned :
      (d : Db) (p : String) → tag p ≡ b'g' → IsOwnedBut fs env p d → IsOwned fs env (fs.delete d p)
  unfolding IsOwned IsOwnedBut has_owner names_device
  deleted-IsOwned d p hp h = (
    λ r. elim (Bool-cases (p == r)) [
      | inl e ↦ rw (deleted-token_at d p r, e) (ground arith)
      | inr e ↦
          let kept : has_owner fs env d r ≡ true = ground (arith, e, h.0 r) in
          rw (deleted-token_at d p r, e)
            (rw
              (
                deleted-owner_at d p (env.hash (token_at fs env d r)),
                differs-token_path (env.hash (token_at fs env d r)) p hp,
              )
              kept)
    ],
    λ g. rw (deleted-owner_at d p g, differs-token_path g p hp) (h.1 g),
  )

  -- The pointer of a token that names a path is deleted.
  pub freed-IsOwnedBut :
      (d : Db) (p digest : String)
      → owner_at fs env d digest ≡ p
      → IsOwnedBut fs env p d
      → IsOwnedBut fs env p (fs.delete d (token_path digest))
  unfolding IsOwnedBut has_owner names_device
  freed-IsOwnedBut d p digest hd h = (
    λ r. elim (Bool-cases (nat_eq (tag r) b'g')) [
      | inr e ↦ rw e (ground arith)
      | inl e ↦
          let token = token_at fs env d r in
          rw (deleted-token_at d (token_path digest) r, token_path-differs digest r (ground arith))
            (rw (deleted-owner_at d (token_path digest) (env.hash token))
              (elim (Bool-cases (token_path digest == token_path (env.hash token))) [
                | inr f ↦ rw f (h.0 r)
                | inl f ↦
                    let same : owner_at fs env d (env.hash token) ≡ p =
                      (unfold owner_at in
                        ap (λ (q : String). pointer_path (get d q)) (sym ((eq_iff _ _).0 f)))
                      ∙ hd in
                    rw f (ground (arith, ap (λ q. q == r) same, h.0 r))
              ]))
    ],
    λ g. elim (Bool-cases (token_path digest == token_path g)) [
      | inl e ↦ rw (deleted-owner_at d (token_path digest) g, e) refl
      | inr e ↦ rw (deleted-owner_at d (token_path digest) g, e) (h.1 g)
    ],
  )

  noted-token_at :
      (d : Db) (p : String) (doc : Fields) (r : String)
      → fcm_token doc ≡ token_at fs env d p
      → token_at fs env (fs.set d p doc) r ≡ token_at fs env d r
  unfolding token_at
  noted-token_at d p doc r h = rw fs.get-set (elim (Bool-cases (p == r)) [
    | inl e ↦ rw e (h ∙ ap (λ q. fcm_token (fields_or (get d q))) ((eq_iff p r).0 e))
    | inr e ↦ rw e refl
  ])

  noted-owner_at :
      (d : Db) (p : String) (doc : Fields) (g : String)
      → tag p ≡ b'g'
      → owner_at fs env (fs.set d p doc) g ≡ owner_at fs env d g
  unfolding owner_at
  noted-owner_at d p doc g hp = rw (fs.get-set, differs-token_path g p hp) refl

  -- A document is written without a change of its token.
  pub noted-IsOwned :
      (d : Db) (p : String) (doc : Fields)
      → tag p ≡ b'g'
      → fcm_token doc ≡ token_at fs env d p
      → IsOwned fs env d
      → IsOwned fs env (fs.set d p doc)
  unfolding IsOwned has_owner names_device
  noted-IsOwned d p doc hp ht h = (
    λ r.
        rw (noted-token_at d p doc r ht)
          (rw (noted-owner_at d p doc (env.hash (token_at fs env d r)) hp) (h.0 r)),
    λ g. rw (noted-owner_at d p doc g hp) (h.1 g),
  )

  -- A device is deleted, and a pointer to it.
  pub removed-IsOwned :
      (d : Db) (p digest : String)
      → tag p ≡ b'g'
      → IsOwned fs env d
      → owner_at fs env (fs.delete d p) digest ≡ p
      → IsOwned fs env (fs.delete (fs.delete d p) (token_path digest))
  unfolding IsOwned IsOwnedBut has_owner
  removed-IsOwned d p digest hp h hd =
      let rest =
        freed-IsOwnedBut (fs.delete d p) p digest hd
          (IsOwned-but p (fs.delete d p) (deleted-IsOwned d p hp (IsOwned-but p d h))) in
      (
        λ r. elim (Bool-cases (p == r)) [
          | inl e ↦
              rw (deleted-token_at (fs.delete d p) (token_path digest) r, deleted-token_at d p r, e)
                (elim (Bool-cases (token_path digest == r)) [
                  | inl f ↦ rw f (ground arith)
                  | inr f ↦ rw f (ground arith)
                ])
          | inr e ↦ ground (arith, e, rest.0 r)
        ],
        rest.1,
      )
