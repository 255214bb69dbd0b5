-- ===== src/Repository/Identity/Lookup.antt =====
-- Whom a lookup by username finds.
use secretmediabot.Base.{nat_eq, int_eq, list_eq}
use secretmediabot.Domain.User.{User}
