-- ===== src/Version/Chain.antt =====
-- The chain of the sources of a version.
use as_platform.Base.{◌≡◌, ◌⊎◌, inl, inr, refl, String, Reply, value, failed}
use as_platform.Base.Text.{strip}
use as_platform.Version.{
  own_distribution, unknown_version, own_version, ReadError, os_error, other_error,
  version_file_version, first_version, read_version,
}

module _ {E X : Type 0} where
  -- What the sources come to, and what is found then.
  abbrev Chained : Reply E String → Reply (ReadError X) String → String → Reply X String → Type 0
  Chained meta file unknown found =
      ((v : String) × (meta ≡ value v) × (found ≡ value v))
      ⊎ (((e : E) × (meta ≡ failed e))
          × (((c : String) × (file ≡ value c) × (found ≡ value (strip c)))
              ⊎ ((x : X) × (file ≡ failed (os_error x)) × (found ≡ value unknown))
              ⊎ ((x : X) × (file ≡ failed (other_error x)) × (found ≡ failed x))))

  first_version-Chained :
      (meta : Reply E String) (file : Reply (ReadError X) String) (unknown : String)
      → Chained meta file unknown (first_version meta (version_file_version file unknown))
  unfolding first_version version_file_version
  first_version-Chained (value v) file unknown = inl (v, refl, refl)
  first_version-Chained (failed e) (value c) unknown = inr ((e, refl), inl (c, refl, refl))
  first_version-Chained (failed e) (failed (os_error x)) unknown =
      inr ((e, refl), inr (inl (x, refl, refl)))
  first_version-Chained (failed e) (failed (other_error x)) unknown =
      inr ((e, refl), inr (inr (x, refl, refl)))

  -- The version is the metadata's where that can be read. Otherwise it is the stripped contents of the
  -- file, or the placeholder if the reading of the file raises an `OSError`; any other exception of
  -- that reading, and nothing else, comes out.
  read_version-Chained :
      (metadata : String → Reply E String) (name : String) (file : Reply (ReadError X) String)
      (unknown : String)
      → Chained
          (metadata name)
          file
          unknown
          (read_version metadata name (version_file_version file unknown))
  unfolding read_version
  read_version-Chained metadata name file unknown =
      first_version-Chained (metadata name) file unknown

  -- The package's own version, likewise.
  own_version-Chained :
      (metadata : String → Reply E String) (file : Reply (ReadError X) String)
      → Chained (metadata own_distribution) file unknown_version (own_version metadata file)
  unfolding own_version
  own_version-Chained metadata file =
      read_version-Chained metadata own_distribution file unknown_version
