-- ===== src/Oci/Reused.antt =====
-- oci/build/internal/image_factory.go: an archive that is there is not written again.
use native.Mathlib.Omega.{arith}
use step_runner.Common.{String, ◌≡◌, true, Bool-cases, ok, err, Result-cases, Error, inl, inr}
use step_runner.Oci.Archives.{
  Archiver, archive_name, close_writers, fill_archive, write_archive, archive_in,
}

module _ {W : Type 0} (os : Archiver W) where
  -- A state in which a file is there.
  abbrev Has : String → W → Type 0
  Has name w = os.stat name w ≡ true

  -- Nothing that is done to an open file of an archive removes it, and one that was created is there.
  pub record Keeps : Type 0 where
    pub created :
        (name : String) (w : W) → (os.create name w).0 ≡ ok tt → Has name (os.create name w).1
    pub new_zstd : (name : String) (w : W) → Has name w → Has name (os.new_zstd_writer name w).1
    pub add_fs : (name fs : String) (w : W) → Has name w → Has name (os.add_fs name fs w).1
    pub close_tar : (name : String) (w : W) → Has name w → Has name (os.close_tar name w).1
    pub close_zstd : (name : String) (w : W) → Has name w → Has name (os.close_zstd name w).1
    pub close_file : (name : String) (w : W) → Has name w → Has name (os.close_file name w).1

  module _ (keeps : Keeps) (fs name : String) (w : W) (here : Has name w) where
    close_writers-Has : Has name (close_writers os name w).1
    unfolding close_writers
    close_writers-Has =
        let h1 = keeps.close_tar name w here in
        let h2 = keeps.close_zstd name _ h1 in let h3 = keeps.close_file name _ h2 in ground arith

  module _ (keeps : Keeps) (fs name : String) (w : W) (here : Has name w) where
    fill_archive-Has : Has name (fill_archive os fs name w).1
    unfolding fill_archive
    fill_archive-Has = elim (Result-cases (os.add_fs name fs w).0) [
      | inr (e, q) ↦
          let h1 = keeps.add_fs name fs w here in
          let h2 = keeps.close_tar name _ h1 in let h3 = keeps.close_zstd name _ h2 in ground arith
      | inl (u, q) ↦
          let h1 = close_writers-Has keeps fs name _ (keeps.add_fs name fs w here) in
          let h2 = keeps.close_tar name _ h1 in let h3 = keeps.close_zstd name _ h2 in ground arith
    ]

  module _ (keeps : Keeps) (fs name : String) (w : W) (here : Has name w) where
    write_archive-Has : Has name (write_archive os fs name w).1
    unfolding write_archive
    write_archive-Has = elim (Result-cases (os.new_zstd_writer name w).0) [
      | inr (e, q) ↦ let h1 = keeps.close_file name _ (keeps.new_zstd name w here) in ground arith
      | inl (u, q) ↦
          let h1 = fill_archive-Has keeps fs name _ (keeps.new_zstd name w here) in
          let h2 = keeps.close_file name _ h1 in ground arith
    ]

  module _ (keeps : Keeps) where
    -- When the archive of a file system cannot be written, after its file was created, the next call for
    -- the same file system returns that file without an error and writes nothing: whatever of the
    -- archive was written is taken for the whole. This is if nothing that is done to an open file
    -- of an archive removes it.
    pub archive_in-reused :
        (fs work_dir : String) (w : W) (e : Error)
        → (os.create (archive_name os work_dir fs) w).0 ≡ ok tt
        → (archive_in os fs work_dir w).0 ≡ err e
        → archive_in os fs work_dir (archive_in os fs work_dir w).1
          ≡ (ok (archive_name os work_dir fs), (archive_in os fs work_dir w).1)
    unfolding archive_in
    archive_in-reused fs work_dir w e created failed =
        let name = archive_name os work_dir fs in
        let h = write_archive-Has keeps fs name _ (keeps.created name w created) in
        let after : Has name (archive_in os fs work_dir w).1 = elim (Bool-cases (os.stat name w)) [
          | inl there ↦ absurd (ground arith)
          | inr missing ↦ ground arith
        ] in
        ground arith
