-- ===== src/Mqtt.antt =====
-- The MQTT side, `bumper/mqtt`: the broker's authentication and hooks, the topics that are
-- forwarded, and the commands of the helper bot.
pub mod ClientId
pub mod Auth
pub mod Presence
pub mod Forward
pub mod Command
pub mod Helper
pub mod Server
pub mod Passwords
pub mod Timezone
