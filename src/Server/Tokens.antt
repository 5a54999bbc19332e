-- ===== src/Server/Tokens.antt =====
-- A push token belongs to one device: the pointer document of a token names the device that has it,
-- whatever apps register and revoke.
use pbxpulse_agent.Prelude.{
  ℕ, String, ◌≡◌, refl, ◌∙◌, ap, sym, Bool, true, false, not, ◌&&◌, ◌||◌, none, some, ◌==◌, eq_iff,
  nat_eq, arith, if◌then◌else◌, is_truthy, Bool-cases, inl, inr,
}
use pbxpulse_agent.Json
use pbxpulse_agent.Json.{Json, Fields, str, end, field}
use pbxpulse_agent.Devices.{fcm_token}
use pbxpulse_agent.Server.Store.{
  Firestore, State, bind_result, merged, fields_or, token_path, pointer_path,
}
use pbxpulse_agent.Server.Paths.{tag, token_path-differs, differs-token_path, tag-is_truthy}
use pbxpulse_agent.Server.Auth.{Env}
use pbxpulse_agent.Server.Registrations.{pointer, claim_token, claim_device}

module _ (fs : Firestore) (env : Env) where
  open fs use {Db, get}

  -- The token of the document at a path.
  unfoldable pub token_at : Db → String → String
  token_at d p = fcm_token (fields_or (get d p))

  -- The path that a token's pointer names.
  unfoldable pub owner_at : Db → String → String
  owner_at d digest = pointer_path (get d (token_path digest))

  -- A document of an Agent or below it that has a token is the one that the pointer names.
  unfoldable pub has_owner : Db → String → Bool
  unfolding token_at owner_at
  has_owner d p =
      not (nat_eq (tag p) b'g')
      || not (is_truthy (token_at d p))
      || owner_at d (env.hash (token_at d p)) == p

  -- A pointer names such a document, or nothing.
  unfoldable pub names_device : Db → String → Bool
  names_device d digest =
      not (is_truthy (owner_at d digest)) || nat_eq (tag (owner_at d digest)) b'g'

  unfoldable pub IsOwned : Db → Type 0
  IsOwned d = ((p : String) → has_owner d p ≡ true) × ((g : String) → names_device d g ≡ true)

  -- The same for all paths but one.
  unfoldable pub IsOwnedBut : String → Db → Type 0
  IsOwnedBut path d =
      ((p : String) → (path == p || has_owner d p) ≡ true)
      × ((g : String) → names_device d g ≡ true)

  -- Whether a registration deletes another device.
  abbrev is_taken : String → String → Bool
  is_taken previous path = is_truthy previous && not (previous == path)

  claimed-get :
      (now : ℕ) (doc : Fields) (token path r : String) (s : State Db)
      → get (claim_device fs env now doc token path s).1.db r ≡ (
          if token_path (env.hash token) == r
          then some (pointer now path)
          else if is_taken
                (pointer_path (
                  get
                    (fs.set s.db path (merged (fields_or (get s.db path)) doc))
                    (token_path (env.hash token))))
                path
              && pointer_path (
                  get
                    (fs.set s.db path (merged (fields_or (get s.db path)) doc))
                    (token_path (env.hash token)))
                == r
          then none
          else get (fs.set s.db path (merged (fields_or (get s.db path)) doc)) r)
  unfolding claim_device claim_token bind_result
  claimed-get now doc token path r s =
      let d = fs.set s.db path (merged (fields_or (get s.db path)) doc) in
      let q = pointer_path (get d (token_path (env.hash token))) in
      elim (Bool-cases (is_taken q path)) [
        | inl e ↦ simp (e) (simp (fs.get-set, fs.get-delete))
        | inr e ↦ simp (e) (simp (fs.get-set, fs.get-delete))
      ]

  -- The database after a registration.
  abbrev claimed : ℕ → Fields → String → String → State Db → Db
  claimed now doc token path s = (claim_device fs env now doc token path s).1.db

  claimed-get-device :
      (now : ℕ) (doc : Fields) (token path r : String) (s : State Db)
      → tag path ≡ b'g'
      → tag r ≡ b'g'
      → get (claimed now doc token path s) r ≡ (
          if is_taken (owner_at s.db (env.hash token)) path && owner_at s.db (env.hash token) == r
          then none
          else if path == r
          then some (merged (fields_or (get s.db path)) doc)
          else get s.db r)
  unfolding owner_at
  claimed-get-device now doc token path r s hp hr =
      claimed-get now doc token path r s
      ∙ simp (
        token_path-differs (env.hash token) r hr,
        differs-token_path (env.hash token) path hp,
        fs.get-set,
      )

  -- The device that a registration deletes is no pointer.
  taken-token_path :
      (d : Db) (digest path g : String)
      → names_device d digest ≡ true
      → (is_taken (owner_at d digest) path && owner_at d digest == token_path g) ≡ false
  unfolding names_device
  taken-token_path d digest path g h = elim (Bool-cases (is_truthy (owner_at d digest))) [
    | inr e ↦ rw e refl
    | inl e ↦ ground (arith, differs-token_path g (owner_at d digest) (ground arith))
  ]

  claimed-owner_at :
      (now : ℕ) (doc : Fields) (token path g : String) (s : State Db)
      → tag path ≡ b'g'
      → names_device s.db (env.hash token) ≡ true
      → owner_at (claimed now doc token path s) g
        ≡ (if token_path (env.hash token) == token_path g then path else owner_at s.db g)
  unfolding owner_at pointer Json.has Json.to_text Json.get
  claimed-owner_at now doc token path g s hp hq =
      ap pointer_path (claimed-get now doc token path (token_path g) s)
      ∙ elim (Bool-cases (token_path (env.hash token) == token_path g)) [
        | inl e ↦ simp (e)
        | inr e ↦
            simp (e, differs-token_path (env.hash token) path hp, fs.get-set)
              (simp
                (taken-token_path s.db (env.hash token) path g hq, differs-token_path g path hp))
      ]

  claimed-token_at :
      (now : ℕ) (doc : Fields) (token path r : String) (s : State Db)
      → tag path ≡ b'g'
      → tag r ≡ b'g'
      → fcm_token (merged (fields_or (get s.db path)) doc) ≡ token
      → token_at (claimed now doc token path s) r ≡ (
          if is_taken (owner_at s.db (env.hash token)) path && owner_at s.db (env.hash token) == r
          then ""
          else if path == r
          then token
          else token_at s.db r)
  unfolding token_at
  claimed-token_at now doc token path r s hp hr ht =
      let q = owner_at s.db (env.hash token) in
      ap (λ o. fcm_token (fields_or o)) (claimed-get-device now doc token path r s hp hr)
      ∙ elim (Bool-cases (is_taken q path && q == r)) [
        | inl e ↦ rw e (unfold fcm_token Json.has in refl)
        | inr e ↦ elim (Bool-cases (path == r)) [ inl f ↦ rw (e, f) ht | inr f ↦ rw (e, f) refl ]
      ]

  claimed-names_device :
      (now : ℕ) (doc : Fields) (token path g : String) (s : State Db)
      → tag path ≡ b'g'
      → ((g : String) → names_device s.db g ≡ true)
      → names_device (claimed now doc token path s) g ≡ true
  unfolding names_device
  claimed-names_device now doc token path g s hp hs =
      rw (claimed-owner_at now doc token path g s hp (hs (env.hash token)))
        (elim (Bool-cases (token_path (env.hash token) == token_path g)) [
          | inl e ↦ rw (e, hp) (ground arith)
          | inr e ↦ rw e (hs g)
        ])

  -- A device that keeps its token is still its owner: if the registered token has the same pointer,
  -- then this is the device that the registration deletes.
  kept-has_owner :
      (d : Db) (digest path r : String)
      → has_owner d r ≡ true
      → tag r ≡ b'g'
      → is_truthy (token_at d r) ≡ true
      → (is_taken (owner_at d digest) path && owner_at d digest == r) ≡ false
      → path == r ≡ false
      → token_path digest == token_path (env.hash (token_at d r)) ≡ false
        × owner_at d (env.hash (token_at d r)) == r ≡ true
  unfolding has_owner
  kept-has_owner d digest path r h hr ht hk hp =
      let owner = owner_at d (env.hash (token_at d r)) in
      let same : owner == r ≡ true = ground (arith, h, hr, ht) in
      let path_of = λ (p : String). pointer_path (get d p) in
      (
        elim (Bool-cases (token_path digest == token_path (env.hash (token_at d r)))) [
          | inr e ↦ e
          | inl e ↦
              let at_r : owner_at d digest ≡ r =
                unfold owner_at in ap path_of ((eq_iff _ _).0 e) ∙ (eq_iff owner r).0 same in
              absurd (
                ground (
                  arith,
                  ap (λ q. is_truthy q) at_r,
                  ap (λ q. q == path) at_r,
                  ap (λ q. q == r) at_r,
                  tag-is_truthy r hr,
                  eq_iff r path,
                  eq_iff path r,
                  eq_iff r r,
                ))
        ],
        same,
      )

  claimed-has_owner :
      (now : ℕ) (doc : Fields) (token path r : String) (s : State Db)
      → tag path ≡ b'g'
      → IsOwnedBut path s.db
      → fcm_token (merged (fields_or (get s.db path)) doc) ≡ token
      → has_owner (claimed now doc token path s) r ≡ true
  unfolding has_owner IsOwnedBut
  claimed-has_owner now doc token path r s hp hs ht =
      let digest = env.hash token in
      let token' = token_at (claimed now doc token path s) r in
      let owner = λ (g : String). claimed-owner_at now doc token path g s hp (hs.1 digest) in
      elim (Bool-cases (nat_eq (tag r) b'g')) [
        | inr e ↦ rw e refl
        | inl e ↦
            rw (claimed-token_at now doc token path r s hp (ground arith) ht)
              (elim (Bool-cases
                (is_taken (owner_at s.db digest) path && owner_at s.db digest == r)) [
                  | inl f ↦ rw f (ground arith)
                  | inr f ↦ elim (Bool-cases (path == r)) [
                    | inl g ↦
                        rw (f, g, owner digest)
                          (ground (arith, eq_iff (token_path digest) (token_path digest), g))
                    | inr g ↦ elim (Bool-cases (is_truthy (token_at s.db r))) [
                      | inr t ↦ rw (f, g, t) (ground arith)
                      | inl t ↦
                          let kept =
                            kept-has_owner s.db digest path r
                              (rw (sym (ap (λ b. b || has_owner s.db r) g)) (hs.0 r)) (ground arith)
                              t f g in
                          rw (f, g, owner (env.hash (token_at s.db r)), kept.0, kept.1)
                            (ground arith)
                    ]
                  ]
                ])
      ]

  -- A registration makes the device the owner of its token, and leaves the others what they own.
  pub claimed-IsOwned :
      (now : ℕ) (doc : Fields) (token path : String) (s : State Db)
      → tag path ≡ b'g'
      → IsOwnedBut path s.db
      → fcm_token (merged (fields_or (get s.db path)) doc) ≡ token
      → IsOwned (claim_device fs env now doc token path s).1.db
  unfolding IsOwned IsOwnedBut
  claimed-IsOwned now doc token path s hp hs ht = (
    λ r. claimed-has_owner now doc token path r s hp hs ht,
    λ g. claimed-names_device now doc token path g s hp hs.1,
  )

  -- The pointer of a device's token names the device.
  pub IsOwned-owner_at :
      (d : Db) (p : String)
      → IsOwned d
      → tag p ≡ b'g'
      → is_truthy (token_at d p) ≡ true
      → owner_at d (env.hash (token_at d p)) ≡ p
  unfolding IsOwned has_owner
  IsOwned-owner_at d p h hp ht =
      (eq_iff (owner_at d (env.hash (token_at d p))) p).0 (ground (arith, h.0 p, hp, ht))
