-- ===== src/Version.antt =====
-- version.py, and __init__.py, which asks it: the version from the distribution's metadata, or else from a file. What
-- `importlib.metadata` and the reading of the file come to are arguments; an exception of the second
-- is an `OSError` or another one.
pub mod Chain
use as_platform.Base.{String, Reply, value, failed}
use as_platform.Base.Text.{strip}

pub data ReadError (X : Type 0) : Type 0 where
  os_error : X → ReadError X
  other_error : X → ReadError X

-- `except OSError: return unknown`
unfoldable pub version_file_version :
    {X : Type 0} → Reply (ReadError X) String → String → Reply X String
unfolding strip
version_file_version (value contents) unknown = value (strip contents)
version_file_version (failed (os_error e)) unknown = value unknown
version_file_version (failed (other_error e)) unknown = failed e

unfoldable distribution_version : {E : Type 0} → (String → Reply E String) → String → Reply E String
distribution_version metadata distribution_name = metadata distribution_name

-- `except Exception: return version_file_reader()`
unfoldable pub first_version : {E X : Type 0} → Reply E String → Reply X String → Reply X String
first_version (value version) reader = value version
first_version (failed e) reader = reader

-- The distribution name of the package, and what it reports when there is no version.
abbrev pub own_distribution : String
own_distribution = "as-platform"

abbrev pub unknown_version : String
unknown_version = "0.0.0+unknown"

unfoldable pub read_version :
    {E X : Type 0} → (String → Reply E String) → String → Reply X String → Reply X String
unfolding distribution_version first_version
read_version metadata distribution_name reader =
    first_version (distribution_version metadata distribution_name) reader

-- `__version__` of the package, from the metadata and its file VERSION.
unfoldable pub own_version :
    {E X : Type 0} → (String → Reply E String) → Reply (ReadError X) String → Reply X String
unfolding read_version version_file_version
own_version metadata file =
    read_version metadata own_distribution (version_file_version file unknown_version)
