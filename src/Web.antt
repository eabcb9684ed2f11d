-- ===== src/Web.antt =====
-- The HTTP side, `bumper/web`: the bodies of responses, the authentication service, and commands.
pub mod Response
pub mod Auth
pub mod Codes
pub mod Commands
pub mod Pages
pub mod Devices
pub mod App
pub mod Users
pub mod Oauth
pub mod Homes
pub mod Account
pub mod SinglePaths
pub mod Server
pub mod Plugins
