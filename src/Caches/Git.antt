-- ===== src/Caches/Git.antt =====
-- pkg/cache/git: steps in git repositories, which are cloned once and checked out once for each commit.
use step_runner.Common.{
  ltb, if◌then◌else◌, ℕ, String, Bool, ◌&&◌, ◌||◌, Option, none, some, List, [], ◌∷◌, chars, length,
  append, has_prefix, join_path, str_eq, Error, errorf, Result, ok, err, ◌>>=◌, wrapping,
}

-- A reference to a commit, a branch or a tag, or an annotated tag; each by its hash.
pub data Reference : Type 0 where
  plain : (hash : String) → Reference
  annotated : (hash : String) → Reference

pub data TagObject : Type 0 where
  tag_object : (hash : String) → TagObject
  object_not_found : TagObject
  tag_error : Error → TagObject

-- The libraries go-git and module, and package os.
pub record GitHost (W : Type 0) : Type 1 where
  pub Repository : Type 0
  pub Tree : Type 0
  -- transport.NewEndpoint: host and path; module.EscapePath and EscapeVersion
  pub new_endpoint : String → Result (String × String)
  pub escape_path : String → Result String
  pub escape_version : String → Result String
  pub mkdir_all : String → W → Result (Unit {0}) × W
  pub path_exists : String → W → Bool
  pub plain_open : String → W → Result Repository
  pub plain_clone : (dir url : String) (depth : ℕ) → W → Result Repository × W
  -- the hashes of Tag and Reference, TagObject of a tag's hash, and the hashes of all commits
  pub tag : Repository → String → W → Result String
  pub tag_object_of : Repository → String → W → TagObject
  pub reference : Repository → String → W → Result String
  pub commit_objects : Repository → W → Result (List String)
  -- FetchContext, where an error that there is nothing new counts as none
  pub fetch : Repository → ℕ → W → Result (Unit {0}) × W
  -- Commit of a reference with its tree, which can fail in either
  pub commit_tree : Repository → Reference → W → Result Tree
  pub make_temp_dir : String → W → Result String × W
  pub copy_tree : Tree → String → W → Result (Unit {0}) × W
  -- os.Rename; whether an error says that the directory exists
  pub rename : (from to : String) → W → Result (Unit {0}) × W
  pub is_exist : Error → Bool
  pub remove_all : String → W → W

module _ {W : Type 0} (host : GitHost W) (depth : ℕ) where
  -- whether a commit is the version: its hash, or a prefix of it that is longer than seven
  abbrev pub is_version : String → String → Bool
  is_version version h =
      str_eq h version || (ltb 7 (length (chars version)) && has_prefix h version)

  -- the search over the commits, which stops at the first
  unfoldable pub find_commit : String → List String → Option Reference
  unfolding has_prefix
  find_commit version [] = none
  find_commit version (h ∷ commits) =
      let rest = find_commit version commits in
      if is_version version h then some (plain h) else rest

  abbrev of_tag : String → TagObject → Result (Option Reference)
  of_tag h (tag_object hash) = ok (some (annotated hash))
  of_tag h object_not_found = ok (some (plain h))
  of_tag h (tag_error e) = wrapping "getting annotated tag: %w" [] (err e)

  unfoldable pub find_in_commits : host.Repository → String → W → Result (Option Reference)
  unfolding find_commit
  find_in_commits repo version w =
      wrapping "getting commit objects: %w" [] (host.commit_objects repo w) >>= λ commits.
      ok (find_commit version commits)

  -- plumbing.NewBranchReferenceName
  abbrev pub branch_name : String → String
  branch_name name = append "refs/heads/" name

  -- find
  unfoldable pub find : host.Repository → String → W → Result (Option Reference)
  unfolding find_in_commits
  find repo version w = elim (host.tag repo version w) [
    | ok h ↦ of_tag h (host.tag_object_of repo h w)
    | err e ↦ elim (host.reference repo (branch_name version) w) [
      | ok h ↦ ok (some (plain h))
      | err e' ↦ elim (host.reference repo (branch_name (append "refs/heads/" version)) w) [
        | ok h ↦ ok (some (plain h))
        | err e'' ↦ find_in_commits repo version w
      ]
    ]
  ]

  unfoldable pub find_named : host.Repository → String → W → Result (Option Reference)
  unfolding find
  find_named repo version w = wrapping "finding version %q: %w" (version ∷ []) (find repo version w)

  -- findFetchAndFindAgain
  unfoldable pub fetch_and_find :
      host.Repository → String → Result (Unit {0}) × W → Result (Option Reference) × W
  unfolding find_named
  fetch_and_find repo version (err e, w) = (wrapping "fetching: %w" [] (err e), w)
  fetch_and_find repo version (ok u, w) = (find_named repo version w, w)

  unfoldable pub find_fetch_and_find_again :
      host.Repository → String → W → Result (Option Reference) × W
  unfolding fetch_and_find
  find_fetch_and_find_again repo version w = elim (find_named repo version w) [
    | err e ↦ (err e, w)
    | ok (some ref) ↦ (ok (some ref), w)
    | ok none ↦ fetch_and_find repo version (host.fetch repo depth w)
  ]

  -- the hash of a reference, as EscapeHash takes it
  abbrev pub hash_of : Reference → String
  hash_of (plain h) = h
  hash_of (annotated h) = h

  -- a call on the world, with what comes behind it unless it fails
  abbrev pub and_then : {A B : Type 0} → Result A × W → (A → W → Result B × W) → Result B × W
  and_then (err e, w) next = (err e, w)
  and_then (ok a, w) next = next a w

  abbrev pub wrapped : {A : Type 0} → String → List String → Result A × W → Result A × W
  wrapped format args (r, w) = (wrapping format args r, w)

  abbrev pub renamed : String → Result (Unit {0}) × W → Result String × W
  renamed step_dir (ok u, w) = (ok step_dir, w)
  renamed step_dir (err e, w) =
      if host.is_exist e then (ok step_dir, w) else (wrapping "renaming dir: %w" [] (err e), w)

  abbrev pub removing : String → Result String × W → Result String × W
  removing dir (r, w) = (r, host.remove_all dir w)

  -- clone behind the temporary directory of the working tree, which is removed in the end
  unfoldable pub check_out : String → String → host.Tree → W → Result String × W
  check_out cache_dir step_dir tree w =
      and_then (wrapped "creating temporary worktree dir: %w" [] (host.make_temp_dir cache_dir w))
        λ worktree_dir w1. removing worktree_dir (
          and_then (wrapped "copying tree: %w" [] (host.copy_tree tree worktree_dir w1))
            λ u w2. renamed step_dir (host.rename worktree_dir step_dir w2))

  unfoldable pub check_out_reference :
      (cache_dir repo_dir : String)
      → host.Repository
      → String
      → Option Reference
      → W
      → Result String × W
  unfolding check_out join_path
  check_out_reference cache_dir repo_dir repo version none w =
      (err (errorf "cannot find version %q" (version ∷ [])), w)
  check_out_reference cache_dir repo_dir repo version (some ref) w =
      and_then (wrapping "escaping version: %w" [] (host.escape_version (hash_of ref)), w)
        λ ver w1.
          and_then (host.commit_tree repo ref w1, w1)
            λ tree w2. check_out cache_dir (join_path (cache_dir ∷ repo_dir ∷ ver ∷ [])) tree w2

  -- the repository, opened if its directory is there
  unfoldable pub open_or_clone : String → String → W → Result host.Repository × W
  open_or_clone git_dir url w =
      if host.path_exists git_dir w
      then (wrapping "opening git repository: %w" [] (host.plain_open git_dir w), w)
      else wrapped "checking out repository: %w" [] (host.plain_clone git_dir url depth w)

  -- clone
  unfoldable pub clone : (cache_dir repo_dir url version : String) → W → Result String × W
  unfolding open_or_clone find_fetch_and_find_again check_out_reference join_path
  clone cache_dir repo_dir url version w =
      if str_eq version ".git"
      then (err (errorf ".git version not allowed" []), w)
      else and_then
          (wrapped "creating repository directory: %w" []
            (host.mkdir_all (join_path (cache_dir ∷ repo_dir ∷ [])) w))
          λ u w1.
            and_then (open_or_clone (join_path (cache_dir ∷ repo_dir ∷ ".git" ∷ [])) url w1)
              λ repo w2.
                and_then (find_fetch_and_find_again repo version w2)
                  λ ref w3. check_out_reference cache_dir repo_dir repo version ref w3

  -- Get
  unfoldable pub get : (cache_dir url version : String) → W → Result String × W
  unfolding clone join_path
  get cache_dir url version w =
      and_then (wrapping "parsing git endpoint: %w" [] (host.new_endpoint url), w)
        λ endpoint w1.
          and_then
            (
              wrapping "escaping path: %w" []
                  (host.escape_path (join_path (endpoint.0 ∷ endpoint.1 ∷ []))),
              w1,
            )
            λ repo_dir w2. clone cache_dir repo_dir url version w2
