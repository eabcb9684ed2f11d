-- ===== src/Web/Oauth/Laws.antt =====
-- What a refresh token leads back to.
use bumper.Value.{Value}
