-- ===== src/Caches/Checkout.antt =====
-- What the fetcher of git repositories returns.
use step_runner.Common.{
  ℕ, String, ◌≡◌, refl, ap, ◌∙◌, true, false, Option, none, some, [], ◌∷◌, join_path, str_eq,
  Result, ok, err, inl, inr, ◌⊎◌, arith, Bool-cases, Result-cases, Option-cases,
}
use step_runner.Caches.Git.{
  Reference, GitHost, hash_of, find, find_named, fetch_and_find, find_fetch_and_find_again,
  and_then, check_out, renamed, check_out_reference, open_or_clone, clone,
}

module _ {W : Type 0} (host : GitHost W) (depth : ℕ) where
  and_then-eq-ok :
      {A B : Type 0} (r : Result A × W) (next : A → W → Result B × W) (b : B) (w' : W)
      → and_then host depth r next ≡ (ok b, w')
      → (a : A) × (r.0 ≡ ok a) × (next a r.1 ≡ (ok b, w'))
  and_then-eq-ok (err e, w) next b w' h = cc
  and_then-eq-ok (ok a, w) next b w' h = (a, refl, h)

  -- Where a reference that is found comes from.
  abbrev pub IsFound : host.Repository → String → Reference → W → W → Type 0
  IsFound repo version ref w w' =
      ((find host depth repo version w ≡ ok (some ref)) × (w' ≡ w))
      ⊎ ((find host depth repo version w ≡ ok none)
          × (host.fetch repo depth w ≡ (ok tt, w'))
          × (find host depth repo version w' ≡ ok (some ref)))

  -- A reference that is found was there before, and then nothing is fetched; or it was not there, and
  -- is there after one fetch.
  pub find_fetch_and_find_again-IsFound :
      (repo : host.Repository) (version : String) (ref : Reference) (w w' : W)
      → find_fetch_and_find_again host depth repo version w ≡ (ok (some ref), w')
      → IsFound repo version ref w w'
  unfolding find_fetch_and_find_again find_named fetch_and_find
  find_fetch_and_find_again-IsFound repo version ref w w' h =
      elim (Result-cases (find host depth repo version w)) [
        | inr (e, q) ↦ absurd (ground arith)
        | inl (o, q) ↦ elim (Option-cases o) [
          | inr (r, same) ↦ inl (ground arith, ground arith)
          | inl same ↦
              let before : find host depth repo version w ≡ ok none = rw same at q in
              elim (Result-cases ((host.fetch repo depth w).0)) [
                | inr (e, bad) ↦ absurd (ground arith)
                | inl (u, good) ↦
                    let w1 = (host.fetch repo depth w).1 in
                    elim (Result-cases (find host depth repo version w1)) [
                      | inr (e, bad) ↦ absurd (ground arith)
                      | inl (found, after) ↦ inr (before, ground arith, ground arith)
                    ]
              ]
        ]
      ]

  renamed-dir :
      (step_dir dir : String) (r : Result (Unit {0}) × W) (w' : W)
      → renamed host depth step_dir r ≡ (ok dir, w')
      → dir ≡ step_dir
  renamed-dir step_dir dir (ok u, w) w' h = ground arith
  renamed-dir step_dir dir (err e, w) w' h = ground arith

  check_out-dir :
      (cache_dir step_dir dir : String) (tree : host.Tree) (w w' : W)
      → check_out host depth cache_dir step_dir tree w ≡ (ok dir, w')
      → dir ≡ step_dir
  unfolding check_out
  check_out-dir cache_dir step_dir dir tree w w' h = ground arith

  -- The repository of a directory: the one that it holds, or a clone of the URL if it is not there.
  abbrev pub IsOpened : (git_dir url : String) → host.Repository → W → W → Type 0
  IsOpened git_dir url repo w w' =
      ((host.path_exists git_dir w ≡ true) × (host.plain_open git_dir w ≡ ok repo) × (w' ≡ w))
      ⊎ ((host.path_exists git_dir w ≡ false)
          × (host.plain_clone git_dir url depth w ≡ (ok repo, w')))

  open_or_clone-IsOpened :
      (git_dir url : String) (repo : host.Repository) (w w' : W)
      → open_or_clone host depth git_dir url w ≡ (ok repo, w')
      → IsOpened git_dir url repo w w'
  unfolding open_or_clone
  open_or_clone-IsOpened git_dir url repo w w' h = elim (Bool-cases (host.path_exists git_dir w)) [
    | inl q ↦ elim (Result-cases (host.plain_open git_dir w)) [
      | inl (r, o) ↦ inl (q, ground arith, ground arith)
      | inr (e, o) ↦ absurd (ground arith)
    ]
    | inr q ↦ elim (Result-cases ((host.plain_clone git_dir url depth w).0)) [
      | inl (r, o) ↦ inr (q, ground arith)
      | inr (e, o) ↦ absurd (ground arith)
    ]
  ]

  -- The directory of a version of a URL's repository, from a world on: the repository's directory is
  -- made, the repository is the one of its .git directory or a clone of the URL, a reference is found
  -- there for the version, and the directory is named by the escaped hash of that reference.
  pub record IsVersionDir (cache_dir repo_dir url version dir : String) (w : W) : Type 0 where
    pub made : W
    pub opened : W
    pub looked_up : W
    pub repo : host.Repository
    pub ref : Reference
    pub hash : String
    pub has_dir : host.mkdir_all (join_path (cache_dir ∷ repo_dir ∷ [])) w ≡ (ok tt, made)
    pub is_opened : IsOpened (join_path (cache_dir ∷ repo_dir ∷ ".git" ∷ [])) url repo made opened
    pub is_found : IsFound repo version ref opened looked_up
    pub escaped : host.escape_version (hash_of host depth ref) ≡ ok hash
    pub named : dir ≡ join_path (cache_dir ∷ repo_dir ∷ hash ∷ [])

  check_out_reference-dir :
      (cache_dir repo_dir version dir : String) (repo : host.Repository) (o : Option Reference)
      (w w' : W)
      → check_out_reference host depth cache_dir repo_dir repo version o w ≡ (ok dir, w')
      → (ref : Reference) × (hash : String) × (o ≡ some ref)
        × (host.escape_version (hash_of host depth ref) ≡ ok hash)
        × (dir ≡ join_path (cache_dir ∷ repo_dir ∷ hash ∷ []))
  unfolding check_out_reference
  check_out_reference-dir cache_dir repo_dir version dir repo none w w' h = cc
  check_out_reference-dir cache_dir repo_dir version dir repo (some ref) w w' h =
      elim (Result-cases (host.escape_version (hash_of host depth ref))) [
        | inr (e, q) ↦ absurd (ground arith)
        | inl (hash, q) ↦ elim (Result-cases (host.commit_tree repo ref w)) [
          | inr (e, t) ↦ absurd (ground arith)
          | inl (tree, t) ↦
              let step_dir = join_path (cache_dir ∷ repo_dir ∷ hash ∷ []) in
              (
                ref,
                hash,
                refl,
                q,
                check_out-dir cache_dir step_dir dir tree w w'
                    (rw (q, t, check_out_reference) at h),
              )
        ]
      ]

  -- When clone succeeds, the version is not .git, and the directory that it returns is the one
  -- under the cache directory and the repository's that is named by the escaped hash of the
  -- reference that was found for the version, in the repository of the .git directory beside it, or
  -- in a clone of the URL if that directory was not there. The reference was there before, and then
  -- nothing is fetched, or was there after one fetch.
  pub clone-IsVersionDir :
      (cache_dir repo_dir url version dir : String) (w w' : W)
      → clone host depth cache_dir repo_dir url version w ≡ (ok dir, w')
      → (str_eq version ".git" ≡ false) × IsVersionDir cache_dir repo_dir url version dir w
  unfolding clone
  clone-IsVersionDir cache_dir repo_dir url version dir w w' h =
      elim (Bool-cases (str_eq version ".git")) [
        | inl q ↦ absurd (ground arith)
        | inr q ↦
            let made = host.mkdir_all (join_path (cache_dir ∷ repo_dir ∷ [])) w in
            let git_dir = join_path (cache_dir ∷ repo_dir ∷ ".git" ∷ []) in
            elim (Result-cases (made.0)) [
              | inr (e, m) ↦ absurd (ground arith)
              | inl (u, m) ↦
                  let opened = open_or_clone host depth git_dir url (made.1) in
                  elim (Result-cases (opened.0)) [
                    | inr (e, o) ↦ absurd (ground arith)
                    | inl (repo, o) ↦
                        let found = find_fetch_and_find_again host depth repo version (opened.1) in
                        elim (Result-cases (found.0)) [
                          | inr (e, f) ↦ absurd (ground arith)
                          | inl (some_ref, f) ↦
                              let (ref, hash, same, escaped, named) =
                                check_out_reference-dir cache_dir repo_dir version dir repo some_ref
                                  (found.1) w' (ground arith) in
                              (
                                q,
                                record {
                                  made = made.1;
                                  opened = opened.1;
                                  looked_up = found.1;
                                  repo = repo;
                                  ref = ref;
                                  hash = hash;
                                  has_dir = ap (λ r. (r, made.1)) m;
                                  is_opened =
                                      open_or_clone-IsOpened git_dir url repo made.1 opened.1
                                        (ap (λ r. (r, opened.1)) o);
                                  is_found =
                                      find_fetch_and_find_again-IsFound repo version ref opened.1
                                        found.1
                                        (ap (λ r. (r, found.1)) f ∙ ap (λ t. (ok t, found.1)) same);
                                  escaped = escaped;
                                  named = named;
                                },
                              )
                        ]
                  ]
            ]
      ]
