-- ===== src/Platform/Collision.antt =====
-- SHA-256 on two given byte strings.
use arm_multisig_application.Base.{◌≡◌}
use arm_multisig_application.Base.Bytes.{Bytes}
use arm_multisig_application.Platform.{Platform}

-- The two byte strings are not a collision: if their digests are equal, so are they.
abbrev pub NoCollision : (p : Platform) → Bytes → Bytes → Type 0
NoCollision p xs ys = p.sha256 xs ≡ p.sha256 ys → xs ≡ ys
