-- ===== src/Status/Examples.antt =====
-- The codes of src/enums/status.rs on concrete input.
use minihttp.Base.{◌≡◌, refl, none, some}
use minihttp.Status.{Status, from}

from_test : (from 404 ≡ some Status.not_found) × (from 999 ≡ none)
unfolding from
from_test = (refl, refl)
