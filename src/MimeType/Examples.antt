-- ===== src/MimeType/Examples.antt =====
-- Tests of MimeType.
use libudjat.Base.{◌≡◌, refl, codes}
use libudjat.MimeType.{mime_type}

mime_type-beginning : mime_type (codes "application/g") ≡ 16
unfolding mime_type
mime_type-beginning = refl
